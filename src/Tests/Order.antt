-- ===== src/Tests/Order.antt =====
-- Runs of src/sys/endian.c on a host that stores the highest byte first.
use re_cpm.Base.{◌≡◌, refl, arith, big, host_bytes, host_value}
use re_cpm.Sys.Endian.{
  gather_up, gather_down, sys_htols, sys_htoll, sys_ltohs, sys_ltohl, sys_htonll, sys_ntohll,
}
use re_cpm.Sys.Endian.Stored.{sys_ltoh-sys_htol}

swapped : sys_htoll big 0x01020304 ≡ 0x04030201
unfolding sys_htoll gather_up host_bytes
swapped = refl

network_is_big : sys_htonll big 0x0102030405060708 ≡ 0x0102030405060708
unfolding sys_htonll gather_down host_bytes
network_is_big = refl

network_back : sys_ntohll big 0x0102030405060708 ≡ 0x0102030405060708
unfolding sys_ntohll host_value
network_back = refl

sys_ltoh-sys_htol_example :
    (sys_ltohs big (sys_htols big 0x0304) ≡ 0x0304)
    × (sys_ltohl big (sys_htoll big 0x01020304) ≡ 0x01020304)
sys_ltoh-sys_htol_example = sys_ltoh-sys_htol big 0x0304 0x01020304 (omega arith) (omega arith)
