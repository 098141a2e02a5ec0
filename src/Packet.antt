-- ===== src/Packet.antt =====
-- HPGateway/src/protocol/Packet.h: the packed header of twelve bytes and the packet. Numbers are
-- written lowest byte first, as `memcpy` does on the x86-64 target.
pub mod Commands
pub mod Answers
use chater.Common.{
  ℕ, zero, suc, ◌+◌, ◌*◌, ◌/◌, ◌%◌, ◌^◌, ◌<◌, ◌≡◌, refl, Bool, List, [], ◌∷◌, ◌++◌, arith, leb,
  length,
}

pub record PacketHeader : Type 0 where
  pub length : ℕ
  pub cmd : ℕ
  pub flag : ℕ
  pub seq : ℕ

pub record Packet : Type 0 where
  pub header : PacketHeader
  pub body : List ℕ

abbrev pub header_length : ℕ
header_length = 12

unfoldable pub is_valid : Packet → Bool
is_valid p = leb header_length p.header.length

abbrev pub u16_mod : ℕ
u16_mod = 2 ^ 16

abbrev pub u32_mod : ℕ
u32_mod = 2 ^ 32

unfoldable pub u16_bytes : ℕ → List ℕ
u16_bytes x = x % 256 ∷ x / 256 % 256 ∷ []

unfoldable pub u32_bytes : ℕ → List ℕ
u32_bytes x = x % 256 ∷ x / 256 % 256 ∷ x / 65536 % 256 ∷ x / 16777216 % 256 ∷ []

abbrev pub byte_at : List ℕ → ℕ → ℕ
byte_at [] i = 0
byte_at (x ∷ xs) zero = x
byte_at (x ∷ xs) (suc i) = byte_at xs i

unfoldable pub u16_at : List ℕ → ℕ → ℕ
u16_at xs i = byte_at xs i + 256 * byte_at xs (i + 1)

unfoldable pub u32_at : List ℕ → ℕ → ℕ
u32_at xs i =
    byte_at xs i
    + 256 * byte_at xs (i + 1)
    + 65536 * byte_at xs (i + 2)
    + 16777216 * byte_at xs (i + 3)

-- The twelve bytes of the packed struct, field by field.
unfoldable pub header_bytes : PacketHeader → List ℕ
unfolding u16_bytes u32_bytes
header_bytes h = u32_bytes h.length ++ (u16_bytes h.cmd ++ (u16_bytes h.flag ++ u32_bytes h.seq))

-- The struct over the bytes from the front of a block.
unfoldable pub header_of : List ℕ → PacketHeader
unfolding u16_at u32_at
header_of xs = record {
  length = u32_at xs 0;
  cmd = u16_at xs 4;
  flag = u16_at xs 6;
  seq = u32_at xs 8;
}

unfoldable pub packet_bytes : Packet → List ℕ
packet_bytes p = header_bytes p.header ++ p.body

-- The fields hold what their C++ types can hold.
pub record InRange (h : PacketHeader) : Type 0 where
  pub length_lt : h.length < u32_mod
  pub cmd_lt : h.cmd < u16_mod
  pub flag_lt : h.flag < u16_mod
  pub seq_lt : h.seq < u32_mod

pub length-header_bytes : (h : PacketHeader) → length (header_bytes h) ≡ 12
unfolding header_bytes
length-header_bytes h = refl

-- Reading the header back from its bytes, whatever follows them, gives the header, if its fields are
-- in the range of their types.
pub header_of-header_bytes :
    (h : PacketHeader) (rest : List ℕ) → InRange h → header_of (header_bytes h ++ rest) ≡ h
unfolding header_of header_bytes
header_of-header_bytes h rest r = ground arith
