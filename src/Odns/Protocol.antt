-- ===== src/Odns/Protocol.antt =====
-- indieweb2-bastion/odns-rs/common/src/protocol.rs: frames of a length and a payload.
-- A byte is a number below 256. A stream to read is the list of the bytes that come until it ends;
-- what a stream is written is the list of the bytes. A write to a closed connection is not modelled.
use civic_connect.Prelude.{
  ℕ, ◌+◌, ◌*◌, ◌/◌, ◌%◌, ◌^◌, ◌≤◌, ◌<◌, ◌≡◌, refl, subst, ap, false, le→leb, length-append, ◌∙◌,
  List, [], ◌∷◌, ◌++◌, length, take, drop, take-append, drop-append, ltb, leb, eqb, if◌then◌else◌,
  Result, ok, err, ◌>>=◌, arith,
}

abbrev pub max_payload : ℕ
max_payload = 65535

-- `payload_too_large got`
pub data IoError : Type 0 where
  unexpected_eof zero_length : IoError
  payload_too_large : ℕ → IoError

-- `read_exact`: the bytes, and the stream after them.
unfoldable pub read_exact : ℕ → List ℕ → Result IoError (List ℕ × List ℕ)
read_exact n stream =
    if leb n (length stream) then ok (take n stream, drop n stream) else err unexpected_eof

-- `u16::from_be_bytes`
abbrev pub from_be_bytes : List ℕ → ℕ
from_be_bytes (high ∷ low ∷ []) = high * 256 + low
from_be_bytes _ = 0

-- `u16::to_be_bytes`
abbrev pub to_be_bytes : ℕ → List ℕ
to_be_bytes n = n / 256 ∷ n % 256 ∷ []

unfoldable pub read_payload : List ℕ × List ℕ → Result IoError (List ℕ × List ℕ)
unfolding read_exact
read_payload (len_buf, stream) =
    let len = from_be_bytes len_buf in if eqb len 0 then err zero_length else read_exact len stream

unfoldable pub read_framed : List ℕ → Result IoError (List ℕ × List ℕ)
unfolding read_exact
read_framed stream = do head ← read_exact 2 stream; read_payload head

unfoldable pub write_framed : List ℕ → Result IoError (List ℕ)
write_framed payload =
    if ltb max_payload (length payload)
    then err (payload_too_large (length payload))
    else ok (to_be_bytes (length payload % 2 ^ 16) ++ payload)

pub read_exact-append :
    (n : ℕ) (xs ys : List ℕ) → length xs ≡ n → read_exact n (xs ++ ys) ≡ ok (xs, ys)
unfolding read_exact
read_exact-append n xs ys h =
    rw
      (
        take-append n xs ys h,
        drop-append n xs ys h,
        le→leb n (length (xs ++ ys)) (omega (arith, length-append xs ys)),
      )
      refl

be_bytes_round : (n : ℕ) → n ≤ max_payload → from_be_bytes (to_be_bytes (n % 2 ^ 16)) ≡ n
be_bytes_round n h = omega arith

-- What write_framed writes, when it does.
pub write_framed-ok :
    (payload frame : List ℕ)
    → write_framed payload ≡ ok frame
    → (length payload ≤ max_payload) × (to_be_bytes (length payload % 2 ^ 16) ++ payload ≡ frame)
unfolding write_framed
write_framed-ok payload frame e = ground arith

pub write_framed-small :
    (payload : List ℕ)
    → length payload ≤ max_payload
    → write_framed payload ≡ ok (to_be_bytes (length payload % 2 ^ 16) ++ payload)
unfolding write_framed
write_framed-small payload h = ground arith

pub write_framed-large :
    (payload : List ℕ)
    → max_payload < length payload
    → write_framed payload ≡ err (payload_too_large (length payload))
unfolding write_framed
write_framed-large payload h = ground arith

read_payload-append :
    (n : ℕ) (head payload rest : List ℕ)
    → from_be_bytes head ≡ n
    → 0 < n
    → length payload ≡ n
    → read_payload (head, payload ++ rest) ≡ ok (payload, rest)
unfolding read_payload
read_payload-append n head payload rest e full h =
    rw (e, pos→eqb n full) (read_exact-append n payload rest h)
  where
    pos→eqb : (m : ℕ) → 0 < m → eqb m 0 ≡ false
    pos→eqb m g = ground arith

-- A written frame is read back as its payload, and what follows it in the stream is left: for every
-- payload that is not empty and that write_framed accepts.
pub read_framed-write_framed :
    (payload frame rest : List ℕ)
    → 0 < length payload
    → write_framed payload ≡ ok frame
    → read_framed (frame ++ rest) ≡ ok (payload, rest)
unfolding read_framed
read_framed-write_framed payload frame rest full written =
    let (small, shape) = write_framed-ok payload frame written in
    let head : List ℕ = to_be_bytes (length payload % 2 ^ 16) in
    subst (λ f. read_framed (f ++ rest) ≡ ok (payload, rest)) shape
      (ap (λ r. r >>= read_payload) (read_exact-append 2 head (payload ++ rest) refl)
        ∙ read_payload-append (length payload) head payload rest
            (be_bytes_round (length payload) small) full refl)
