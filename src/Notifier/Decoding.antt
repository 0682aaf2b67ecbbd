-- ===== src/Notifier/Decoding.antt =====
-- src/fuser_facade/notifier.rs: what a receiver reads from the messages.
use confuse.Common.{
  ℕ, suc, ◌+◌, ◌%◌, ◌^◌, ◌<◌, ◌≡◌, refl, ◌∙◌, Option, none, some, List, [], ◌∷◌, ◌++◌, length, take,
  length-append, take-append, ◌==◌, if◌then◌else◌, Result, ok, arith,
}
use confuse.Common.Int.{ℤ}
use confuse.Common.Text.{Text}
use confuse.Mount.Options.{ErrorKind}
use confuse.Notifier.Wire.{
  to_le_bytes, as_u64, utf8, length-to_le_bytes, read_le, read_le-to_le_bytes,
}
use confuse.Notifier.Messages.{
  NotifyCode, poll_code, inval_entry_code, inval_inode_code, store_code, delete_code, code_num,
  with_iovec, checked_u32, poll_payload, inval_inode_payload, name_payload, inval_entry_payload,
  store_payload, delete_payload,
}

-- What a notification says.
pub data Notice : Type 0 where
  polls : ℕ → Notice
  invalidates_inode : ℕ → ℤ → ℤ → Notice
  invalidates_entry : ℕ → Text → Notice
  stores : ℕ → ℕ → List ℕ → Notice
  deletes : ℕ → ℕ → Text → Notice

-- The code and the payload that the method of a notification hands to `send`.
abbrev pub code_of : Notice → NotifyCode
code_of (polls kh) = poll_code
code_of (invalidates_inode ino off len) = inval_inode_code
code_of (invalidates_entry parent name) = inval_entry_code
code_of (stores ino offset bytes) = store_code
code_of (deletes parent child name) = delete_code

abbrev pub payload_of : Notice → Result (List ℕ) ErrorKind
payload_of (polls kh) = ok (poll_payload kh)
payload_of (invalidates_inode ino off len) = ok (inval_inode_payload ino off len)
payload_of (invalidates_entry parent name) = inval_entry_payload parent name
payload_of (stores ino offset bytes) = store_payload ino offset bytes
payload_of (deletes parent child name) = delete_payload parent child name

-- What a notification says in the words of the protocol: an `i64` by its bits, a name by its bytes.
pub data Packet : Type 0 where
  poll_packet : ℕ → Packet
  inode_packet : ℕ → ℕ → ℕ → Packet
  entry_packet : ℕ → List ℕ → Packet
  store_packet : ℕ → ℕ → List ℕ → Packet
  delete_packet : ℕ → ℕ → List ℕ → Packet

abbrev pub packet : Notice → Packet
packet (polls kh) = poll_packet kh
packet (invalidates_inode ino off len) = inode_packet ino (as_u64 off) (as_u64 len)
packet (invalidates_entry parent name) = entry_packet parent (utf8 name)
packet (stores ino offset bytes) = store_packet ino offset bytes
packet (deletes parent child name) = delete_packet parent child (utf8 name)

-- A reader of the protocol.
unfoldable pub parse : ℕ → (ℕ → List ℕ → Option Packet) → List ℕ → Option Packet
parse width f bytes = elim (read_le width bytes) [ none ↦ none | some (n, rest) ↦ f n rest ]

unfoldable pub parse_name : (List ℕ → Packet) → List ℕ → Option Packet
unfolding parse
parse_name f =
    parse 4
      (λ n. parse 4 (λ pad rest. if length rest == suc n then some (f (take n rest)) else none))

unfoldable pub parse_body : ℕ → List ℕ → Option Packet
unfolding parse parse_name
parse_body code rest =
    if code == 1
    then parse 8 (λ kh r. some (poll_packet kh)) rest
    else (if code == 2
        then parse 8 (λ ino. parse 8 (λ off. parse 8 (λ len r. some (inode_packet ino off len))))
            rest
        else (if code == 3
            then parse 8 (λ parent. parse_name (entry_packet parent)) rest
            else (if code == 4
                then parse 8
                    (λ ino. parse 8 (λ offset. parse 4 (λ size. parse 4 (λ pad r.
                      if length r == size then some (store_packet ino offset r) else none))))
                    rest
                else (if code == 6
                    then parse 8
                        (λ parent. parse 8 (λ child. parse_name (delete_packet parent child))) rest
                    else none))))

unfoldable pub decode : List ℕ → Option Packet
unfolding parse parse_body
decode bytes =
    parse 4
      (λ total. parse 4 (λ code.
        parse 8 (λ zeros rest. if total == length bytes then parse_body code rest else none)))
      bytes

pub parse-to_le_bytes :
    (width n : ℕ) (f : ℕ → List ℕ → Option Packet) (rest : List ℕ)
    → n < 256 ^ width
    → parse width f (to_le_bytes width n ++ rest) ≡ f n rest
unfolding parse
parse-to_le_bytes width n f rest lt = rw (parse, read_le-to_le_bytes width n rest lt) refl

code_num-small : (code : NotifyCode) → code_num code < 256 ^ 4
unfolding code_num
code_num-small code = ground arith

-- The header is read back.
pub decode-with_iovec :
    (code : NotifyCode) (payload : List ℕ)
    → length payload + 16 < 2 ^ 32
    → (m : List ℕ) × (with_iovec code payload ≡ ok m)
      × (decode m ≡ parse_body (code_num code) payload)
unfolding with_iovec checked_u32 decode
decode-with_iovec code payload fits =
    let total = (length payload + 16) % 2 ^ 32 in
    let tail = to_le_bytes 8 0 ++ payload in
    let body = to_le_bytes 4 (code_num code) ++ tail in
    let m = to_le_bytes 4 total ++ body in
    let checked : ℕ → List ℕ → Option Packet =
      λ number rest. if total == length m then parse_body number rest else none in
    let whole : total ≡ length m = ground (
      arith,
      length-append (to_le_bytes 4 total) body,
      length-append (to_le_bytes 4 (code_num code)) tail,
      length-append (to_le_bytes 8 0) payload,
      length-to_le_bytes 4 total,
      length-to_le_bytes 4 (code_num code),
      length-to_le_bytes 8 0,
    ) in
    (
      m,
      ground arith,
      parse-to_le_bytes 4 total
            (λ t. parse 4 (λ number.
              parse 8 (λ zeros rest. if t == length m then parse_body number rest else none)))
            body (omega arith)
          ∙ (parse-to_le_bytes 4 (code_num code) (λ number. parse 8 (λ zeros. checked number)) tail
                (code_num-small code)
              ∙ (parse-to_le_bytes 8 0 (λ zeros. checked (code_num code)) payload (omega arith)
                  ∙ ground (arith, whole))),
    )

-- A name is read back.
pub parse_name-name_payload :
    (head : List ℕ) (name : Text) (f : List ℕ → Packet)
    → length (utf8 name) < 2 ^ 32
    → (rest : List ℕ) × (name_payload head name ≡ ok (head ++ rest))
      × (length rest ≡ length (utf8 name) + 9)
      × (parse_name f rest ≡ some (f (utf8 name)))
unfolding name_payload checked_u32 parse_name
parse_name-name_payload head name f fits =
    let text = utf8 name in
    let tail = text ++ (0 ∷ []) in
    let pad = to_le_bytes 4 0 ++ tail in
    let long : length tail ≡ suc (length text) = omega (arith, length-append text (0 ∷ [])) in
    (
      to_le_bytes 4 (length text) ++ pad,
      ground arith,
      omega (
        arith,
        length-append (to_le_bytes 4 (length text)) pad,
        length-append (to_le_bytes 4 0) tail,
        length-to_le_bytes 4 (length text),
        length-to_le_bytes 4 0,
        long,
      ),
      parse-to_le_bytes 4 (length text)
            (λ n.
              parse 4 (λ pad rest. if length rest == suc n then some (f (take n rest)) else none))
            pad (omega arith)
          ∙ (parse-to_le_bytes 4 0
                (λ pad rest.
                  if length rest == suc (length text)
                  then some (f (take (length text) rest))
                  else none)
                tail (omega arith)
              ∙ ground (arith, long, take-append text (0 ∷ []))),
    )
