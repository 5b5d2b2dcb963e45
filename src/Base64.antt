-- ===== src/Base64.antt =====
-- src/base64/b64.c: Base-64, standard and URL safe.
pub mod Group
pub mod RoundTrip
pub mod Bounds
use re_cpm.Base.{
  ℕ, ◌+◌, ◌-◌, ◌*◌, ◌/◌, ◌%◌, ◌^◌, ltb, leb, ◌==◌, if◌then◌else◌, Bool, ◌&&◌, ◌||◌, List, [], ◌∷◌,
  ◌++◌, length, get_or, bit_and, bit_or,
}
use re_cpm.Base.Errno.{eoverflow}
use re_cpm.Platform.{add_size, mul_size}
use Prim.Native.Char.{code}
use Prim.Native.String.{String}

-- the characters of a literal
abbrev pub codes : String → List ℕ
codes String.[] = []
codes (String.◌∷◌ c s) = code c ∷ codes s

abbrev pub b64_table : List ℕ
b64_table = codes "ABCDEFGHIJKLMNOPQRSTUVWXYZabcdefghijklmnopqrstuvwxyz0123456789+/"

abbrev pub b64url_table : List ℕ
b64url_table = codes "ABCDEFGHIJKLMNOPQRSTUVWXYZabcdefghijklmnopqrstuvwxyz0123456789-_"

-- `table[v >> shift & 0x3f]`
unfoldable pub digit : List ℕ → ℕ → ℕ → ℕ
digit table v shift = get_or table (bit_and (v / 2 ^ shift) 0x3f) 0

-- `v  = *in++ << 16; v |= *in++ << 8; v |= *in++ << 0;`
unfoldable pub join : ℕ → ℕ → ℕ → ℕ
join a b c = bit_or (bit_or (a * 2 ^ 16) (b * 2 ^ 8)) c

-- The rounds of `base64_encode`: three bytes, or one or two at the end with padding.
unfoldable pub encode_loop : List ℕ → List ℕ
unfolding digit join
encode_loop [] = []
encode_loop (a ∷ []) =
    let v = a * 2 ^ 16 in digit b64_table v 18 ∷ digit b64_table v 12 ∷ b'=' ∷ b'=' ∷ []
encode_loop (a ∷ b ∷ []) =
    let v = bit_or (a * 2 ^ 16) (b * 2 ^ 8) in
    digit b64_table v 18 ∷ digit b64_table v 12 ∷ digit b64_table v 6 ∷ b'=' ∷ []
encode_loop (a ∷ b ∷ c ∷ rest) =
    let v = join a b c in
    digit b64_table v 18
    ∷ digit b64_table v 12
    ∷ digit b64_table v 6
    ∷ digit b64_table v 0
    ∷ encode_loop rest

-- The rounds of `base64url_encode`, without padding.
unfoldable pub encode_url_loop : List ℕ → List ℕ
unfolding digit join
encode_url_loop [] = []
encode_url_loop (a ∷ []) =
    let v = a * 2 ^ 16 in digit b64url_table v 18 ∷ digit b64url_table v 12 ∷ []
encode_url_loop (a ∷ b ∷ []) =
    let v = bit_or (a * 2 ^ 16) (b * 2 ^ 8) in
    digit b64url_table v 18 ∷ digit b64url_table v 12 ∷ digit b64url_table v 6 ∷ []
encode_url_loop (a ∷ b ∷ c ∷ rest) =
    let v = join a b c in
    digit b64url_table v 18
    ∷ digit b64url_table v 12
    ∷ digit b64url_table v 6
    ∷ digit b64url_table v 0
    ∷ encode_url_loop rest

-- `4 * ((ilen+2)/3)`
abbrev pub encode_room : ℕ → ℕ
encode_room ilen = mul_size 4 (add_size ilen 2 / 3)

-- The error number and what is written; `*olen` becomes the length of that.
unfoldable pub base64_encode : List ℕ → ℕ → ℕ × List ℕ
unfolding encode_loop
base64_encode input olen =
    if ltb olen (encode_room (length input)) then (eoverflow, []) else (0, encode_loop input)

unfoldable pub base64url_encode : List ℕ → ℕ → ℕ × List ℕ
unfolding encode_url_loop
base64url_encode input olen =
    if ltb olen (encode_room (length input)) then (eoverflow, []) else (0, encode_url_loop input)

-- `b64val`; a padding character has its own bit, 24.
unfoldable pub b64val : ℕ → ℕ
b64val c =
    if leb b'A' c && leb c b'Z'
    then c - b'A' + 0
    else if leb b'a' c && leb c b'z'
    then c - b'a' + 26
    else if leb b'0' c && leb c b'9'
    then c - b'0' + 52
    else if b'+' == c || b'-' == c
    then 62
    else if b'/' == c || b'_' == c
    then 63
    else if b'=' == c
    then 2 ^ 24
    else 0

-- Four values into one word of 32 bits.
unfoldable pub gather : ℕ → ℕ → ℕ → ℕ → ℕ
gather w x y z =
    bit_or (bit_or (bit_or (w * 2 ^ 18 % 2 ^ 32) (x * 2 ^ 12 % 2 ^ 32)) (y * 2 ^ 6 % 2 ^ 32)) z

-- `*out++` two or three times: a byte whose character was padding is left out.
unfoldable pub emit : ℕ → List ℕ
emit v =
    v / 2 ^ 16 % 256
    ∷ ((if bit_and v (2 ^ 30) == 0 then bit_and (v / 2 ^ 8) 0xff ∷ [] else [])
        ++ (if bit_and v (2 ^ 24) == 0 then bit_and v 0xff ∷ [] else []))

-- The rounds of `base64_decode`: `in+1 < in_end`, so that one character at the end is left. A round
-- takes up to four; what is missing counts as padding.
unfoldable pub decode_loop : List ℕ → List ℕ
unfolding b64val gather emit
decode_loop [] = []
decode_loop (a ∷ []) = []
decode_loop (a ∷ b ∷ []) = emit (gather (b64val a) (b64val b) (2 ^ 24) (2 ^ 24))
decode_loop (a ∷ b ∷ c ∷ []) = emit (gather (b64val a) (b64val b) (b64val c) (2 ^ 24))
decode_loop (a ∷ b ∷ c ∷ d ∷ rest) =
    emit (gather (b64val a) (b64val b) (b64val c) (b64val d)) ++ decode_loop rest

-- `3 * (ilen/4)`
abbrev pub decode_room : ℕ → ℕ
decode_room ilen = mul_size 3 (ilen / 4)

-- The error number and the bytes written to `out`, which has room for `olen`.
unfoldable pub base64_decode : List ℕ → ℕ → ℕ × List ℕ
unfolding decode_loop
base64_decode input olen =
    if ltb olen (decode_room (length input)) then (eoverflow, []) else (0, decode_loop input)
