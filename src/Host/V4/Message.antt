-- ===== src/Host/V4/Message.antt =====
-- The ICMP errors that `FakeHost_reply` sends.
use rdnstun.Base.{
  ℕ, ◌+◌, ◌≤◌, ◌<◌, ◌≡◌, ◌≢◌, false, some, arith, Buffer, IsBytes, at, store, store-IsBytes, copy,
  copy-IsBytes, fill-IsBytes, store16_be-IsBytes, fill, store16_be,
}
use rdnstun.Inet.{cksum_finish, cksum_continue, cksum_append, cksum}
use rdnstun.Inet.Sum.{cksum_continue-ext}
use rdnstun.Inet.Checksum.{cksum_append-verifies, cksum_append-other, cksum_append-IsBytes}
use rdnstun.Host.V4.{append_header}

-- `out` is an ICMP error about `pkt`, as RFC 792 lays it out: the error, four zero bytes, the IP
-- header of `pkt` and the first 8 bytes behind it, under a checksum that the receiver accepts.
-- What lies behind in the buffer is untouched.
pub record Quotes (type code : ℕ) (pkt out : Buffer) : Type 0 where
  pub kind : out 20 ≡ type
  pub detail : out 21 ≡ code
  pub unused : (i : ℕ) → i < 4 → out (24 + i) ≡ 0
  pub header : (i : ℕ) → i < 20 → out (28 + i) ≡ pkt i
  pub payload : (i : ℕ) → i < 8 → out (48 + i) ≡ pkt (20 + i)
  pub protocol : out 9 ≡ 1
  pub total_length : (out 2 ≡ 0) × (out 3 ≡ 56)
  pub icmp_checksum : cksum_finish (cksum_continue 0 (at out 20) 36) ≡ 0
  pub behind : (j : ℕ) → 56 ≤ j → out j ≡ pkt j

abbrev pub laid_out : ℕ → ℕ → Buffer → Buffer
laid_out type code pkt =
    let orig_ip = copy pkt 28 pkt 20 in
    let orig_data = copy orig_ip 48 (at orig_ip 20) 8 in
    fill (store (store orig_data 20 type) 21 code) 24 0 4

laid_out-IsBytes :
    (type code : ℕ) (pkt : Buffer)
    → type < 256
    → code < 256
    → IsBytes pkt
    → IsBytes (laid_out type code pkt)
laid_out-IsBytes type code pkt ht hc b =
    fill-IsBytes _ 24 0 4 (store-IsBytes _ 21 code (store-IsBytes _ 20 type data' ht) hc)
      (omega arith)
  where
    ip : IsBytes (copy pkt 28 pkt 20)
    ip = copy-IsBytes pkt 28 pkt 20 b b

    data' : IsBytes (copy (copy pkt 28 pkt 20) 48 (at (copy pkt 28 pkt 20) 20) 8)
    data' = copy-IsBytes _ 48 _ 8 ip (λ i. ip (20 + i))

pub append_header-other :
    (type code : ℕ) (pkt : Buffer) (j : ℕ)
    → j ≢ 22
    → j ≢ 23
    → append_header type code pkt j ≡ store16_be (store (laid_out type code pkt) 9 1) 2 56 j
unfolding append_header cksum
append_header-other type code pkt j h k =
    ground (arith, cksum_append-other 22 (laid_out type code pkt) 20 36 false j)

pub append_header-IsBytes :
    (type code : ℕ) (pkt : Buffer)
    → type < 256
    → code < 256
    → IsBytes pkt
    → IsBytes (append_header type code pkt)
unfolding append_header cksum
append_header-IsBytes type code pkt ht hc b = store16_be-IsBytes _ 2 56 (
    store-IsBytes _ 9 1
      (cksum_append-IsBytes 22 _ 20 36 false (laid_out-IsBytes type code pkt ht hc b))
      (omega arith))

append_header-checksum :
    (type code : ℕ) (pkt : Buffer)
    → type < 256
    → code < 256
    → IsBytes pkt
    → cksum_finish (cksum_continue 0 (at (append_header type code pkt) 20) 36) ≡ 0
unfolding append_header cksum
append_header-checksum type code pkt ht hc b =
    rw
      (cksum_continue-ext 0 (at (append_header type code pkt) 20)
        (at (cksum_append (some 22) (laid_out type code pkt) 20 36 false).1 20) 36
        (λ i p. ground arith))
      (cksum_append-verifies (laid_out type code pkt) 20 1 36 false
        (laid_out-IsBytes type code pkt ht hc b) (omega arith) (omega arith) (λ e. absurd (cc)))

pub append_header-Quotes :
    (type code : ℕ) (pkt : Buffer)
    → type < 256
    → code < 256
    → IsBytes pkt
    → Quotes type code pkt (append_header type code pkt)
append_header-Quotes type code pkt ht hc b = record {
  kind = ground (arith, append_header-other type code pkt 20);
  detail = ground (arith, append_header-other type code pkt 21);
  unused = λ i p. ground (arith, append_header-other type code pkt (24 + i));
  header = λ i p. ground (arith, append_header-other type code pkt (28 + i));
  payload = λ i p. ground (arith, append_header-other type code pkt (48 + i));
  protocol = ground (arith, append_header-other type code pkt 9);
  total_length = (
    ground (arith, append_header-other type code pkt 2),
    ground (arith, append_header-other type code pkt 3),
  );
  icmp_checksum = append_header-checksum type code pkt ht hc b;
  behind = λ j p. ground (arith, append_header-other type code pkt j);
}
