-- ===== src/Host/V6.antt =====
-- `FakeHost6_reply`: the IPv6 packet is changed in place into the reply. `struct ipicmp6` has the
-- IP header at 0, the ICMP header at 40, the quoted header at 48 and the quoted data at 88. The debug
-- message that it logs is left out.
pub mod Answer
pub mod Errors
pub mod Echo
pub mod EchoChecksum
mod Examples
use rdnstun.Base.{
  ℕ, ◌+◌, ◌-◌, ◌*◌, ◌/◌, ◌%◌, ◌^◌, Bool, true, false, not, ◌&&◌, if◌then◌else◌, leb, ◌==◌, Buffer,
  at, store, copy, fill, load16, store16, store16_be, mem_eq, u8, u32,
}
use rdnstun.Inet.{cksum_continue, cksum_finish}
use rdnstun.Host.{FakeHost, Reply}

abbrev pub icmp6_dst_unreach : ℕ
icmp6_dst_unreach = 1

abbrev pub icmp6_time_exceeded : ℕ
icmp6_time_exceeded = 3

abbrev pub icmp6_echo_request : ℕ
icmp6_echo_request = 128

abbrev pub icmp6_echo_reply : ℕ
icmp6_echo_reply = 129

abbrev pub icmp6_time_exceed_transit : ℕ
icmp6_time_exceed_transit = 0

abbrev pub icmp6_dst_unreach_addr : ℕ
icmp6_dst_unreach_addr = 3

abbrev pub icmp6_dst_unreach_noport : ℕ
icmp6_dst_unreach_noport = 4

abbrev pub ipproto_icmpv6 : ℕ
ipproto_icmpv6 = 58

-- `sizeof(struct ipicmp6)`
abbrev pub ipicmp6_size : ℕ
ipicmp6_size = 96

-- The header and the first 8 bytes of data are copied behind a new ICMP header, which is filled in
-- but for its checksum.
unfoldable pub append_header : ℕ → ℕ → Buffer → Buffer
append_header type code pkt =
    let orig_ip = copy pkt 48 pkt 40 in
    let orig_data = copy orig_ip 88 (at orig_ip 40) 8 in
    let typed = store (store orig_data 40 type) 41 code in
    store (store16_be (fill typed 44 0 4) 4 (ipicmp6_size - 40)) 6 ipproto_icmpv6

-- From the label `no_append` to the checksum: the hop limit and the addresses.
unfoldable pub no_append : FakeHost → ℕ → Buffer → Buffer
no_append self ttl pkt =
    let hop = store pkt 7 (u8 (self.ttl + 256 - ttl)) in
    let back = copy hop 24 (at hop 8) 16 in copy back 8 self.addr 16

-- The sum over the pseudo-header and the ICMP message, `*len - sizeof(struct ip6_hdr)` bytes as a
-- `size_t`. The payload length is added as it stands in memory, the next header as `htons` of it.
unfoldable pub cksum_pseudo : Buffer → ℕ → ℕ
cksum_pseudo pkt len =
    let addresses = cksum_continue 0 (at pkt 8) 32 in
    let with_length = u32 (addresses + load16 pkt 4) in
    let with_next = u32 (with_length + pkt 6 * 256) in
    cksum_continue with_next (at pkt 40) ((len + 2 ^ 64 - 40) % 2 ^ 64)

unfoldable pub fill_cksum : Buffer → ℕ → Buffer
fill_cksum pkt len =
    let cleared = store16 pkt 42 0 in store16 cleared 42 (cksum_finish (cksum_pseudo cleared len))

-- The answer to a ping, its length, and `checksum_ok`. The difference of the types is -1, as a
-- `uint32_t`.
unfoldable pub echo : FakeHost → Buffer → ℕ → Buffer × ℕ × Bool
echo self pkt len =
    let typed = store (store pkt 40 icmp6_echo_reply) 41 0 in
    let checksum = u32 (load16 typed 42 + (icmp6_echo_request + 2 ^ 32 - icmp6_echo_reply)) in
    if leb len self.mtu
    then (store16 typed 42 (checksum / 2 ^ 16 + checksum % 2 ^ 16), len, true)
    else (store16_be typed 4 ((self.mtu + 2 ^ 64 - 40) % 2 ^ 16), self.mtu, false)

abbrev pub send : FakeHost → ℕ → Buffer → ℕ → Bool → Reply
send self ttl pkt len checksum_ok =
    let addressed = no_append self ttl pkt in
    record {
      code = 0;
      packet = if not checksum_ok then fill_cksum addressed len else addressed;
      len = len;
    }

abbrev pub send_error : FakeHost → ℕ → ℕ → ℕ → Buffer → Reply
send_error self ttl type code pkt = send self ttl (append_header type code pkt) ipicmp6_size false

abbrev pub send_echo : FakeHost → ℕ → Buffer → ℕ → Reply
send_echo self ttl pkt len =
    let (answer, size, checksum_ok) = echo self pkt len in send self ttl answer size checksum_ok

-- Whether the packet is for this host: `ip6_dst` is at 24.
abbrev pub dst_is_target : FakeHost → Buffer → Bool
dst_is_target self pkt = mem_eq self.addr (at pkt 24) 16

unfoldable pub reply : FakeHost → ℕ → Buffer → ℕ → Reply
reply self ttl pkt len =
    if leb (pkt 7) ttl
    then record { code = 1; packet = pkt; len = len }
    else if pkt 7 - ttl == 1 && not (dst_is_target self pkt)
    then send_error self ttl icmp6_time_exceeded icmp6_time_exceed_transit pkt
    else if not (dst_is_target self pkt)
    then send_error self ttl icmp6_dst_unreach icmp6_dst_unreach_addr pkt
    else if pkt 6 == ipproto_icmpv6
    then if pkt 40 == icmp6_echo_request
      then send_echo self ttl pkt len
      else record { code = 0; packet = pkt; len = 0 }
    else send_error self ttl icmp6_dst_unreach icmp6_dst_unreach_noport pkt
