-- ===== src/SmsFrame/Udh.antt =====
-- pkg/smsframe/reassemble.go, ParseUDH: the walk over the information elements of a header.
-- `none` is an index out of range, or a walk that has not ended after the given rounds.
use ota_platform.Prelude.{
  ℕ, zero, suc, ◌+◌, ◌≤◌, ◌<◌, ◌≡◌, ◌⊎◌, refl, inl, inr, Option, none, some, ◌∷◌, [], arith, ltb,
  leb, ◌==◌, if◌then◌else◌, Bool-cases, length, drop, get_elem?, get_elem?-lt, leb→gt,
}
use native.Mathlib.Numerals.{add-one}
use ota_platform.Prelude.Bits.{Bytes}
use ota_platform.Prelude.Options.{◌>>=◌}
use ota_platform.SmsFrame.Frame.{ConcatInfo, frame_ota_sms}

-- What ParseUDH returns.
pub record Udh : Type 0 where
  pub udh_len : ℕ
  pub concat : Option ConcatInfo
  pub payload : Bytes

-- The switch on the element's identifier: only a concatenation element of three or more bytes
-- is recorded.
unfoldable pub read_ie : Bytes → ℕ → ℕ → ℕ → Option ConcatInfo → Option (Option ConcatInfo)
read_ie raw iei ie_len pos concat =
    if iei == 0x00
    then if leb 3 ie_len
      then (do
        r ← get_elem? raw pos
        t ← get_elem? raw (pos + 1)
        p ← get_elem? raw (pos + 2)
        some (some (record { ref_num = r; total = t; part = p })))
      else some concat
    else some concat

-- The loop of ParseUDH from index `pos`; the first argument bounds the rounds.
unfoldable pub parse_ies : ℕ → Bytes → ℕ → ℕ → Option ConcatInfo → Option (Option ConcatInfo)
unfolding read_ie
parse_ies zero raw pos end_udh concat = none
parse_ies (suc rounds) raw pos end_udh concat =
    let parse_ie : ℕ → ℕ → Option (Option ConcatInfo) = λ iei ie_len.
      if ltb end_udh (pos + 2 + ie_len) then some concat else (do
        c ← read_ie raw iei ie_len (pos + 2) concat
        parse_ies rounds raw (pos + 2 + ie_len) end_udh c) in
    let walk : Option (Option ConcatInfo) = (do
      iei ← get_elem? raw pos
      ie_len ← get_elem? raw (pos + 1)
      parse_ie iei ie_len) in
    if ltb pos end_udh then if leb end_udh (pos + 1) then some concat else walk else some concat

-- A header of n bytes takes at most n rounds and one more that ends the walk.
unfoldable pub parse_udh : Bytes → Option Udh
unfolding parse_ies
parse_udh [] = some (record { udh_len = 0; concat = none; payload = [] })
parse_udh (udh_len ∷ rest) =
    let raw : Bytes = udh_len ∷ rest in
    let inside : Option Udh = (do
      c ← parse_ies (udh_len + 1) raw 1 (udh_len + 1) none
      some (record { udh_len = udh_len; concat = c; payload = drop udh_len rest })) in
    if ltb (length raw) (udh_len + 1)
    then some (record { udh_len = 0; concat = none; payload = raw })
    else inside

read_ie_total :
    (raw : Bytes) (iei ie_len pos : ℕ) (concat : Option ConcatInfo)
    → pos + ie_len ≤ length raw
    → (c : Option ConcatInfo) × (read_ie raw iei ie_len pos concat ≡ some c)
unfolding read_ie
read_ie_total raw iei ie_len pos concat h = elim (Bool-cases (iei == 0x00)) [
  | inr other ↦ (concat, rw other refl)
  | inl here ↦ elim (Bool-cases (leb 3 ie_len)) [
    | inr short ↦ (concat, rw (here, short) refl)
    | inl long ↦
        let long' : 3 ≤ ie_len = ground arith in
        let (r, er) = get_elem?-lt raw pos (omega arith) in
        let (t, et) = get_elem?-lt raw (pos + 1) (omega arith) in
        let (p, ep) = get_elem?-lt raw (pos + 2) (omega arith) in
        (some (record { ref_num = r; total = t; part = p }), rw (here, long, er, et, ep) refl)
  ]
]

-- The walk ends within as many rounds as bytes are left, and reads no byte beyond the header.
parse_ies_total :
    (rounds : ℕ) (raw : Bytes) (pos end_udh : ℕ) (concat : Option ConcatInfo)
    → end_udh ≤ length raw
    → pos ≤ end_udh
    → end_udh < pos + rounds
    → (c : Option ConcatInfo) × (parse_ies rounds raw pos end_udh concat ≡ some c)
unfolding parse_ies
parse_ies_total zero raw pos end_udh concat fits le enough = absurd (omega arith)
parse_ies_total (suc rounds) raw pos end_udh concat fits le enough =
    elim (Bool-cases (ltb pos end_udh)) [
      | inr over ↦ (concat, rw over refl)
      | inl inside ↦ elim (Bool-cases (leb end_udh (pos + 1))) [
        | inl last ↦ (concat, rw (inside, last) refl)
        | inr more ↦
            let lt : pos + 1 < end_udh = leb→gt end_udh (pos + 1) more in
            let (iei, ei) = get_elem?-lt raw pos (omega arith) in
            let (ie_len, el) = get_elem?-lt raw (pos + 1) (omega arith) in
            elim (Bool-cases (ltb end_udh (pos + 2 + ie_len))) [
              | inl out ↦ (concat, rw (inside, more, ei, el, out) refl)
              | inr fit ↦
                  let (c, ec) = read_ie_total raw iei ie_len (pos + 2) concat (ground arith) in
                  let (d, ed) =
                    parse_ies_total rounds raw (pos + 2 + ie_len) end_udh c fits (ground arith)
                      (omega arith) in
                  (d, rw (inside, more, ei, el, fit, ec) ed)
            ]
      ]
    ]

-- Every message is read: the walk over its header ends, with no index out of range, and what is
-- handed on is the message itself or the message without its header.
pub parse_udh_total :
    (raw : Bytes)
    → (u : Udh) × (parse_udh raw ≡ some u)
      × ((u.payload ≡ raw) ⊎ (u.payload ≡ drop (u.udh_len + 1) raw))
unfolding parse_udh
parse_udh_total [] = (record { udh_len = 0; concat = none; payload = [] }, refl, inl refl)
parse_udh_total (n ∷ rest) = elim (Bool-cases (ltb (length (n ∷ rest)) (n + 1))) [
  | inl short ↦ (record { udh_len = 0; concat = none; payload = n ∷ rest }, rw short refl, inl refl)
  | inr long ↦
      let (c, ec) =
        parse_ies_total (n + 1) (n ∷ rest) 1 (n + 1) none (ground arith) (omega arith)
          (omega arith) in
      (
        record { udh_len = n; concat = c; payload = drop n rest },
        rw (long, ec) refl,
        inr (rw (add-one n) refl),
      )
]

-- Reading back what the framing wrote gives the concatenation data and the packet.
pub parse_udh-frame_ota_sms_single :
    (packet : Bytes)
    → parse_udh (frame_ota_sms packet none)
      ≡ some (record { udh_len = 2; concat = none; payload = packet })
unfolding parse_udh frame_ota_sms
parse_udh-frame_ota_sms_single packet = ground arith

-- A message framed as one part of a series is read back: the concatenation data and the payload.
pub parse_udh-frame_ota_sms_part :
    (packet : Bytes) (c : ConcatInfo)
    → parse_udh (frame_ota_sms packet (some c))
      ≡ some (record { udh_len = 7; concat = some c; payload = packet })
unfolding parse_udh frame_ota_sms
parse_udh-frame_ota_sms_part packet c = ground arith
