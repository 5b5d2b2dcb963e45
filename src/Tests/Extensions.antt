-- ===== src/Tests/Extensions.antt =====
-- Runs of src/rtpext/rtpext.c.
use re_cpm.Base.{
  ℕ, ◌+◌, ◌-◌, ◌%◌, ◌≡◌, refl, arith, false, List, [], ◌∷◌, replicate, none, some, host_bytes,
}
use re_cpm.Platform.{Platform}
use re_cpm.Mbuf.{Mbuf, set_pos, write_mem, reserve, put}
use re_cpm.Mbuf.Ints.{write_u8, write_int}
use re_cpm.Mbuf.Inv.{IsValid}
use re_cpm.Mbuf.Cursor.{rest}
use re_cpm.Rtpext.{
  cleared, rtpext_encode, rtpext_decode, rtpext_encode_long, rtpext_decode_long, write_padding,
}
use re_cpm.Rtpext.Padding.{drop_zeros}
use re_cpm.Rtpext.RoundTrip.{IsShort, IsLong, item, rtpext_decode-encode, rtpext_decode_long-encode}
use re_cpm.Rtpext.Returns.{rtpext_encode-returns, rtpext_encode_spins}
use re_cpm.Tests.Host.{host, blank, blank-IsValid}

abbrev two : List ℕ
two = 1 ∷ 2 ∷ []

two-IsShort : IsShort 5 two
two-IsShort = omega arith

abbrev sent : Mbuf
sent = record { buf = 0x51 ∷ 1 ∷ 2 ∷ replicate 29 0; size = 32; pos = 4; end = 4 }

encode_two : rtpext_encode host 4 blank 5 two ≡ some (0, sent)
unfolding rtpext_encode write_padding write_u8 write_int write_mem reserve put host_bytes
encode_two = refl

rtpext_decode-encode_example :
    (mb' : Mbuf) × (rtpext_decode host 40 cleared (set_pos sent 0) ≡ some (0, item 5 two, mb'))
    × (rest mb' ≡ drop_zeros (rest sent))
    × ((4 - 0) % 4 ≡ 0)
rtpext_decode-encode_example =
    rtpext_decode-encode host 4 40 5 two cleared blank sent two-IsShort blank-IsValid encode_two
      (omega arith)

rtpext_encode-returns_example : (mb : Mbuf) × (rtpext_encode host 4 blank 5 two ≡ some (0, mb))
rtpext_encode-returns_example =
    rtpext_encode-returns host 4 5 two blank two-IsShort blank-IsValid (omega arith) (omega arith)

two-IsLong : IsLong 200 two
two-IsLong = omega arith

encode_long_fine : (rtpext_encode_long host blank 200 two).0 ≡ 0
unfolding rtpext_encode_long write_u8 write_int write_mem reserve put host_bytes
encode_long_fine = refl

encode_long_fits : (rtpext_encode_long host blank 200 two).1.size ≡ 32
unfolding rtpext_encode_long write_u8 write_int write_mem reserve put host_bytes
encode_long_fits = refl

rtpext_decode_long-encode_example :
    let sent = (rtpext_encode_long host blank 200 two).1 in
    (mb' : Mbuf) × (rtpext_decode_long host 40 cleared (set_pos sent 0)
      ≡ some (0, item 200 two, mb'))
    × (rest mb' ≡ drop_zeros (rest sent))
    × (sent.pos ≡ 0 + 2 + 2)
rtpext_decode_long-encode_example =
    rtpext_decode_long-encode host 40 200 two cleared blank two-IsLong blank-IsValid
      encode_long_fine (omega (arith, encode_long_fits))

-- A machine that grants no larger block, and a block with room for three bytes.
abbrev full_host : Platform
full_host = record host { realloc = λ _ _. false }

abbrev three_left : Mbuf
three_left = record { buf = 0 ∷ 0 ∷ 0 ∷ []; size = 3; pos = 0; end = 0 }

three_left-IsValid : IsValid three_left
three_left-IsValid = omega arith

rtpext_encode_spins_example : rtpext_encode full_host 100 three_left 5 two ≡ none
rtpext_encode_spins_example =
    rtpext_encode_spins full_host 100 5 two three_left two-IsShort three_left-IsValid refl
      (λ e. absurd (omega arith)) (λ _ _. refl)
