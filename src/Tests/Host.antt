-- ===== src/Tests/Host.antt =====
-- A machine for the tests: little-endian, with a memory that grants every request.
use re_cpm.Base.{ℕ, ◌<◌, true, little, arith, [], ◌∷◌, replicate}
use re_cpm.Platform.{Platform}
use re_cpm.Mbuf.{Mbuf}
use re_cpm.Mbuf.Inv.{IsValid}

pub zero_byte : (i : ℕ) → 0 < 256
zero_byte i = omega arith

abbrev pub host : Platform
host = record {
  endian = little;
  malloc = λ _. true;
  realloc = λ _ _. true;
  junk = λ _. 0;
  junk_byte = zero_byte;
}

-- Room for 32 bytes, nothing written.
abbrev pub blank : Mbuf
blank = record { buf = replicate 32 0; size = 32; pos = 0; end = 0 }

pub blank-IsValid : IsValid blank
blank-IsValid = omega arith

-- Three bytes, the first of them read.
abbrev pub three : Mbuf
three = record { buf = 7 ∷ 8 ∷ 9 ∷ 0 ∷ []; size = 4; pos = 1; end = 3 }

pub three-IsValid : IsValid three
three-IsValid = omega arith
