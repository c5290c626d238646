-- ===== src/Host/V4.antt =====
-- `FakeHost_reply`: the IPv4 packet is changed in place into the reply. `struct ipicmp` has the IP
-- header at 0, the ICMP header at 20, the quoted header at 28 and the quoted data at 48. The debug
-- message that it logs is left out.
pub mod Header
pub mod Message
pub mod Errors
pub mod Echo
pub mod EchoChecksum
mod Examples
use rdnstun.Base.{
  ℕ, ◌+◌, ◌-◌, ◌/◌, ◌%◌, ◌^◌, Bool, not, ◌&&◌, some, if◌then◌else◌, leb, ◌==◌, Buffer, at, store,
  copy, fill, load16, store16, store16_be, mem_eq, u8, u32,
}
use rdnstun.Inet.{cksum, cksum_header}
use rdnstun.Host.{FakeHost, Reply}

abbrev pub icmp_echoreply : ℕ
icmp_echoreply = 0

abbrev pub icmp_unreach : ℕ
icmp_unreach = 3

abbrev pub icmp_echo : ℕ
icmp_echo = 8

abbrev pub icmp_timxceed : ℕ
icmp_timxceed = 11

abbrev pub icmp_timxceed_intrans : ℕ
icmp_timxceed_intrans = 0

abbrev pub icmp_unreach_host : ℕ
icmp_unreach_host = 1

abbrev pub icmp_unreach_port : ℕ
icmp_unreach_port = 3

abbrev pub ipproto_icmp : ℕ
ipproto_icmp = 1

-- `sizeof(struct ipicmp)`
abbrev pub ipicmp_size : ℕ
ipicmp_size = 56

-- The header and the first 8 bytes of data are copied behind a new ICMP header, which is filled in.
unfoldable pub append_header : ℕ → ℕ → Buffer → Buffer
append_header type code pkt =
    let orig_ip = copy pkt 28 pkt 20 in
    let orig_data = copy orig_ip 48 (at orig_ip 20) 8 in
    let typed = store (store orig_data 20 type) 21 code in
    let summed = (cksum (some 22) (fill typed 24 0 4) 20 (ipicmp_size - 20)).1 in
    store16_be (store summed 9 ipproto_icmp) 2 ipicmp_size

-- From the label `no_append` on. `self->ttl - ttl` is cut to a byte.
unfoldable pub no_append : FakeHost → ℕ → Buffer → Buffer
no_append self ttl pkt =
    let hop = store pkt 8 (u8 (self.ttl + 256 - ttl)) in
    let back = copy hop 16 (at hop 12) 4 in
    (cksum_header (some 10) (copy back 12 self.addr 4) 0 20).1

-- The answer to a ping, and its length. `*len - sizeof(struct ip)` is a `size_t`.
unfoldable pub echo : FakeHost → Buffer → ℕ → Buffer × ℕ
echo self pkt len =
    let typed = store (store pkt 20 icmp_echoreply) 21 0 in
    let checksum = u32 (load16 typed 22 + (icmp_echo - icmp_echoreply)) in
    if leb len self.mtu then (store16 typed 22 (checksum / 2 ^ 16 + checksum % 2 ^ 16), len) else (
      (cksum (some 22) (store16_be typed 2 self.mtu) 20 ((self.mtu + 2 ^ 64 - 20) % 2 ^ 64)).1,
      self.mtu,
    )

abbrev pub send : FakeHost → ℕ → Buffer → ℕ → Reply
send self ttl pkt len = record { code = 0; packet = no_append self ttl pkt; len = len }

abbrev pub send_error : FakeHost → ℕ → ℕ → ℕ → Buffer → Reply
send_error self ttl type code pkt = send self ttl (append_header type code pkt) ipicmp_size

abbrev pub send_echo : FakeHost → ℕ → Buffer → ℕ → Reply
send_echo self ttl pkt len = let (answer, size) = echo self pkt len in send self ttl answer size

-- Whether the packet is for this host: `ip_dst` is at 16.
abbrev pub dst_is_target : FakeHost → Buffer → Bool
dst_is_target self pkt = mem_eq self.addr (at pkt 16) 4

unfoldable pub reply : FakeHost → ℕ → Buffer → ℕ → Reply
reply self ttl pkt len =
    if leb (pkt 8) ttl
    then record { code = 1; packet = pkt; len = len }
    else if pkt 8 - ttl == 1 && not (dst_is_target self pkt)
    then send_error self ttl icmp_timxceed icmp_timxceed_intrans pkt
    else if not (dst_is_target self pkt)
    then send_error self ttl icmp_unreach icmp_unreach_host pkt
    else if pkt 9 == ipproto_icmp
    then if pkt 20 == icmp_echo
      then send_echo self ttl pkt len
      else record { code = 0; packet = pkt; len = 0 }
    else send_error self ttl icmp_unreach icmp_unreach_port pkt
