-- ===== src/Rtmp/Header/RoundTrip.antt =====
-- What `rtmp_header_encode` of src/rtmp/hdr.c writes is read back by `rtmp_header_decode`.
use re_cpm.Base.{◌+◌, ◌≡◌, refl, sym, ap, ◌∙◌, ◌++◌, drop, length}
use re_cpm.Platform.{Platform}
use re_cpm.Mbuf.{Mbuf, set_pos}
use re_cpm.Mbuf.Inv.{IsValid}
use re_cpm.Mbuf.Cursor.{rest}
use re_cpm.Mbuf.Words.{Appends-rewound}
use re_cpm.Rtmp.Header.{Header, rtmp_header_encode, rtmp_header_decode}
use re_cpm.Rtmp.Header.Wire.{IsHeader, header_bytes, sent_ext, rtmp_header_encode-Appends}
use re_cpm.Rtmp.Header.Receive.{received, unread, rtmp_header_decode-Gives}

-- A header of any of the four formats that `rtmp_header_encode` writes into a valid buffer without an
-- error is read back by `rtmp_header_decode` from where it was written: the decoded header has the
-- fields of its format, timestamps of 24 and of 32 bits alike, and zeros elsewhere. What stands
-- behind it is left to be read, after the extended timestamp if the format is 3. The encoder sets
-- the extended timestamp of its argument to what it sent.
pub rtmp_header_decode-encode :
    (p : Platform) (h old : Header) (mb : Mbuf)
    → IsHeader h
    → IsValid mb
    → (rtmp_header_encode p mb h).0 ≡ 0
    → let (err, h', sent) = rtmp_header_encode p mb h in
      (mb' : Mbuf) × (rtmp_header_decode p old (set_pos sent mb.pos) ≡ (0, received h, mb'))
      × (rest mb' ≡ unread h ++ rest sent)
      × (h' ≡ record h { timestamp_ext = sent_ext h })
      × (sent.pos ≡ mb.pos + length (header_bytes h))
unfolding set_pos
rtmp_header_decode-encode p h old mb w v z =
    let (sent, (e, a)) = rtmp_header_encode-Appends p mb h w v z in
    let (v', b) = Appends-rewound mb (header_bytes h) (0, sent) v a refl in
    let (mb', out, ok, left) =
      rtmp_header_decode-Gives p h old (set_pos sent mb.pos)
        (drop (length (header_bytes h)) (rest mb)) w v' b in
    (
      mb',
      rw e out,
      rw e (left ∙ ap (λ t. unread h ++ t) (sym (a.behind refl))),
      rw e refl,
      rw e (a.at refl),
    )
