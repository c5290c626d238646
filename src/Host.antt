-- ===== src/Host.antt =====
-- host.h and host.c: the fake hosts and the replies that they send.
-- `struct FakeHost` and `struct FakeHost6` differ in the size of the address alone, which stands at
-- the same offset in both; one record models them, and a flag says how many bytes of it count.
pub mod V4
pub mod V6
use rdnstun.Base.{ℕ, Bool, if◌then◌else◌, Buffer, copy, mem_eq}

pub record FakeHost : Type 0 where
  pub ttl : ℕ
  pub mtu : ℕ
  pub addr : Buffer

-- What a `reply` leaves: its result, the packet and `*len`.
pub record Reply : Type 0 where
  pub code : ℕ
  pub packet : Buffer
  pub len : ℕ

abbrev pub addr_size : Bool → ℕ
addr_size v6 = if v6 then 16 else 4

abbrev pub zeros : Buffer
zeros i = 0

-- `BaseFakeHost_isnull`: the unspecified address.
unfoldable pub is_null : FakeHost → Bool → Bool
is_null self v6 = if v6 then mem_eq self.addr zeros 16 else mem_eq self.addr zeros 4

-- `BaseFakeHost_init`, which always returns 0; `self` is the memory before.
unfoldable pub init : FakeHost → Buffer → ℕ → ℕ → Bool → FakeHost
init self addr ttl mtu v6 = record {
  ttl = ttl;
  mtu = mtu;
  addr = copy self.addr 0 addr (if v6 then 16 else 4);
}
