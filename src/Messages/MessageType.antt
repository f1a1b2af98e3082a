-- ===== src/Messages/MessageType.antt =====
-- `enum class MessageType : uint8_t` of Serdes.h.
use rap_cpp.Base.{ℕ, ◌<◌, ◌≡◌, refl, Bool, Option, none, some, List, [], ◌∷◌, arith}
use rap_cpp.Base.{◌==◌, ==_iff, if◌then◌else◌, Bool-cases, inl, inr}

pub data MessageType : Type 0 where
  cmd_single_read : MessageType
  ack_single_read : MessageType
  nak_single_read : MessageType
  cmd_single_write : MessageType
  cmd_single_write_posted : MessageType
  ack_single_write : MessageType
  nak_single_write : MessageType
  cmd_seq_read : MessageType
  ack_seq_read : MessageType
  nak_seq_read : MessageType
  cmd_seq_write : MessageType
  cmd_seq_write_posted : MessageType
  ack_seq_write : MessageType
  nak_seq_write : MessageType
  cmd_comp_read : MessageType
  ack_comp_read : MessageType
  nak_comp_read : MessageType
  cmd_comp_write : MessageType
  cmd_comp_write_posted : MessageType
  ack_comp_write : MessageType
  nak_comp_write : MessageType
  cmd_single_rmw : MessageType
  cmd_single_rmw_posted : MessageType
  ack_single_rmw : MessageType
  nak_single_rmw : MessageType
  ack_single_interrupt : MessageType

-- The underlying value of an enumerator.
unfoldable pub to_byte : MessageType → ℕ
to_byte cmd_single_read = 0x01
to_byte ack_single_read = 0x80
to_byte nak_single_read = 0xc1
to_byte cmd_single_write = 0x10
to_byte cmd_single_write_posted = 0x51
to_byte ack_single_write = 0x91
to_byte nak_single_write = 0xd0
to_byte cmd_seq_read = 0x04
to_byte ack_seq_read = 0x85
to_byte nak_seq_read = 0xc4
to_byte cmd_seq_write = 0x15
to_byte cmd_seq_write_posted = 0x54
to_byte ack_seq_write = 0x94
to_byte nak_seq_write = 0xd5
to_byte cmd_comp_read = 0x08
to_byte ack_comp_read = 0x89
to_byte nak_comp_read = 0xc8
to_byte cmd_comp_write = 0x19
to_byte cmd_comp_write_posted = 0x58
to_byte ack_comp_write = 0x98
to_byte nak_comp_write = 0xd9
to_byte cmd_single_rmw = 0x20
to_byte cmd_single_rmw_posted = 0x61
to_byte ack_single_rmw = 0xa1
to_byte nak_single_rmw = 0xe0
to_byte ack_single_interrupt = 0xb0

abbrev all_message_types : List MessageType
all_message_types =
    cmd_single_read ∷ ack_single_read ∷ nak_single_read ∷ cmd_single_write ∷ cmd_single_write_posted
    ∷ ack_single_write ∷ nak_single_write ∷ cmd_seq_read ∷ ack_seq_read ∷ nak_seq_read
    ∷ cmd_seq_write ∷ cmd_seq_write_posted ∷ ack_seq_write ∷ nak_seq_write ∷ cmd_comp_read
    ∷ ack_comp_read ∷ nak_comp_read ∷ cmd_comp_write ∷ cmd_comp_write_posted ∷ ack_comp_write
    ∷ nak_comp_write ∷ cmd_single_rmw ∷ cmd_single_rmw_posted ∷ ack_single_rmw ∷ nak_single_rmw
    ∷ ack_single_interrupt ∷ []

find_by_byte : ℕ → List MessageType → Option MessageType
find_by_byte b [] = none
find_by_byte b (m ∷ ms) = if to_byte m == b then some m else find_by_byte b ms

-- `static_cast<MessageType>(b)`: every byte is a value of the type, and `none` stands for those
-- without an enumerator, which a `switch` handles by its `default`.
unfoldable pub from_byte : ℕ → Option MessageType
unfolding find_by_byte to_byte
from_byte b = find_by_byte b all_message_types

-- `a == b` on the enum compares the underlying values.
unfoldable pub same_type : MessageType → MessageType → Bool
unfolding to_byte
same_type a b = to_byte a == to_byte b

-- No two enumerators share a value.
pub from_byte-to_byte : (m : MessageType) → from_byte (to_byte m) ≡ some m
unfolding from_byte to_byte
from_byte-to_byte cmd_single_read = refl
from_byte-to_byte ack_single_read = refl
from_byte-to_byte nak_single_read = refl
from_byte-to_byte cmd_single_write = refl
from_byte-to_byte cmd_single_write_posted = refl
from_byte-to_byte ack_single_write = refl
from_byte-to_byte nak_single_write = refl
from_byte-to_byte cmd_seq_read = refl
from_byte-to_byte ack_seq_read = refl
from_byte-to_byte nak_seq_read = refl
from_byte-to_byte cmd_seq_write = refl
from_byte-to_byte cmd_seq_write_posted = refl
from_byte-to_byte ack_seq_write = refl
from_byte-to_byte nak_seq_write = refl
from_byte-to_byte cmd_comp_read = refl
from_byte-to_byte ack_comp_read = refl
from_byte-to_byte nak_comp_read = refl
from_byte-to_byte cmd_comp_write = refl
from_byte-to_byte cmd_comp_write_posted = refl
from_byte-to_byte ack_comp_write = refl
from_byte-to_byte nak_comp_write = refl
from_byte-to_byte cmd_single_rmw = refl
from_byte-to_byte cmd_single_rmw_posted = refl
from_byte-to_byte ack_single_rmw = refl
from_byte-to_byte nak_single_rmw = refl
from_byte-to_byte ack_single_interrupt = refl

pub to_byte-lt : (m : MessageType) → to_byte m < 256
unfolding to_byte
to_byte-lt cmd_single_read = omega arith
to_byte-lt ack_single_read = omega arith
to_byte-lt nak_single_read = omega arith
to_byte-lt cmd_single_write = omega arith
to_byte-lt cmd_single_write_posted = omega arith
to_byte-lt ack_single_write = omega arith
to_byte-lt nak_single_write = omega arith
to_byte-lt cmd_seq_read = omega arith
to_byte-lt ack_seq_read = omega arith
to_byte-lt nak_seq_read = omega arith
to_byte-lt cmd_seq_write = omega arith
to_byte-lt cmd_seq_write_posted = omega arith
to_byte-lt ack_seq_write = omega arith
to_byte-lt nak_seq_write = omega arith
to_byte-lt cmd_comp_read = omega arith
to_byte-lt ack_comp_read = omega arith
to_byte-lt nak_comp_read = omega arith
to_byte-lt cmd_comp_write = omega arith
to_byte-lt cmd_comp_write_posted = omega arith
to_byte-lt ack_comp_write = omega arith
to_byte-lt nak_comp_write = omega arith
to_byte-lt cmd_single_rmw = omega arith
to_byte-lt cmd_single_rmw_posted = omega arith
to_byte-lt ack_single_rmw = omega arith
to_byte-lt nak_single_rmw = omega arith
to_byte-lt ack_single_interrupt = omega arith

find_by_byte_sound :
    (b : ℕ) (ms : List MessageType) {m : MessageType} → find_by_byte b ms ≡ some m → to_byte m ≡ b
unfolding find_by_byte
find_by_byte_sound b [] h = cc
find_by_byte_sound b (x ∷ ms) {m} h = elim (Bool-cases (to_byte x == b)) [
  | inl same ↦ cc ((==_iff (to_byte x) b).0 same, rw same at h)
  | inr other ↦ find_by_byte_sound b ms (rw other at h)
]

pub to_byte-from_byte : (b : ℕ) {m : MessageType} → from_byte b ≡ some m → to_byte m ≡ b
unfolding from_byte
to_byte-from_byte b h = find_by_byte_sound b all_message_types h
