-- ===== src/Net.antt =====
-- kernel/src/net.c: the IPv4 stack's checksum, ARP cache and handlers of incoming frames. A frame is the
-- list of its bytes, and the frames that are sent are kept in order. Words of a packet are read as
-- x86_64 reads them, the low byte first. Waiting for an ARP reply is an argument: what the cache has
-- for the next hop before the deadline.
pub mod Checksum
pub mod Arp
pub mod Udp
pub mod Frame
pub mod Address
pub mod Dns
pub mod Dhcp
pub mod Resolve
use choco_os.Base.{
  ℕ, zero, suc, ◌+◌, ◌-◌, ◌*◌, ◌/◌, ◌%◌, ◌^◌, Bool, true, false, not, ◌&&◌, ◌||◌, ltb, leb, ◌==◌,
  if◌then◌else◌, Option, none, some, List, [], ◌∷◌, ◌++◌, length, take, drop, replicate, byte_at,
  bit_and, add_word,
}

abbrev pub htons16 : ℕ → ℕ
htons16 v = v / 256 + v % 256 * 256

-- A 16-bit and a 32-bit field at an offset.
abbrev pub field16 : List ℕ → ℕ → ℕ
field16 p i = byte_at p i + byte_at p (i + 1) * 256

abbrev pub field32 : List ℕ → ℕ → ℕ
field32 p i = field16 p i + field16 p (i + 2) * 65536

abbrev pub bytes16 : ℕ → List ℕ
bytes16 v = v % 256 ∷ v / 256 % 256 ∷ []

abbrev pub bytes32 : ℕ → List ℕ
bytes32 v = bytes16 v ++ bytes16 (v / 65536)

-- The sum of the big-endian words, an odd last byte being a high byte.
unfoldable pub word_sum : List ℕ → ℕ → ℕ
word_sum [] sum = sum
word_sum (a ∷ []) sum = add_word 32 sum (a * 256)
word_sum (a ∷ b ∷ rest) sum = word_sum rest (add_word 32 sum (a * 256 + b))

-- `while (sum >> 16)`
unfoldable pub fold_carry : (fuel : ℕ) → ℕ → Option ℕ
fold_carry zero sum = none
fold_carry (suc fuel) sum =
    let rest = fold_carry fuel (sum % 65536 + sum / 65536) in
    if sum / 65536 == 0 then some sum else rest

unfoldable pub checksum16 : List ℕ → (start : ℕ) → Option ℕ
unfolding word_sum fold_carry
checksum16 p start = elim (fold_carry 4 (word_sum p start)) [
  | none ↦ none
  | some sum ↦ some (htons16 (65535 - sum))
]

pub record ArpEntry : Type 0 where
  pub ip : ℕ
  pub mac : List ℕ
  pub valid : Bool

abbrev pub matches : ℕ → ArpEntry → Bool
matches ip e = e.valid && e.ip == ip

-- The first loop of `arp_cache_put`: nothing when no entry has the address.
pub update_entry : List ArpEntry → (ip : ℕ) → List ℕ → Option (List ArpEntry)
update_entry [] ip mac = none
update_entry (e ∷ es) ip mac =
    let rest : Option (List ArpEntry) = elim (update_entry es ip mac) [
      | none ↦ none
      | some es' ↦ some (e ∷ es')
    ] in
    if matches ip e then some (record e { mac = mac } ∷ es) else rest

-- The second loop: nothing when all entries are valid.
pub fill_entry : List ArpEntry → (ip : ℕ) → List ℕ → Option (List ArpEntry)
fill_entry [] ip mac = none
fill_entry (e ∷ es) ip mac =
    let rest : Option (List ArpEntry) = elim (fill_entry es ip mac) [
      | none ↦ none
      | some es' ↦ some (e ∷ es')
    ] in
    if not e.valid then some (record { ip = ip; mac = mac; valid = true } ∷ es) else rest

pub evict_first : List ArpEntry → (ip : ℕ) → List ℕ → List ArpEntry
evict_first [] ip mac = []
evict_first (e ∷ es) ip mac = record e { ip = ip; mac = mac } ∷ es

abbrev pub or_then : Option (List ArpEntry) → Option (List ArpEntry) → List ArpEntry → List ArpEntry
or_then (some es) second third = es
or_then none (some es) third = es
or_then none none third = third

pub arp_cache_put : List ArpEntry → (ip : ℕ) → List ℕ → List ArpEntry
unfolding update_entry fill_entry evict_first
arp_cache_put cache ip mac =
    or_then (update_entry cache ip mac) (fill_entry cache ip mac) (evict_first cache ip mac)

unfoldable pub arp_cache_get : List ArpEntry → ℕ → Option (List ℕ)
arp_cache_get [] ip = none
arp_cache_get (e ∷ es) ip =
    let rest = arp_cache_get es ip in if matches ip e then some e.mac else rest

pub record Net : Type 0 where
  pub our_mac : List ℕ
  pub our_ip : ℕ
  pub our_mask : ℕ
  pub our_gw : ℕ
  pub arp_cache : List ArpEntry
  pub ip_id : ℕ
  pub icmp_waiting : Bool
  pub icmp_id : ℕ
  pub icmp_seq : ℕ
  pub icmp_got : Bool
  pub udp_port : ℕ
  pub udp_data : List ℕ
  pub udp_len : ℕ
  pub udp_src_ip : ℕ
  pub sent : List (List ℕ)

abbrev pub eth_arp : ℕ
eth_arp = 0x0806

abbrev pub eth_ip : ℕ
eth_ip = 0x0800

abbrev pub udp_buf_size : ℕ
udp_buf_size = 1024

abbrev pub bcast_mac : List ℕ
bcast_mac = replicate 6 255

-- A frame is padded with zeros to 60 bytes.
unfoldable pub eth_send : Net → (dst_mac : List ℕ) → (ethertype : ℕ) → List ℕ → Net
eth_send s dst_mac ethertype payload =
    let frame = dst_mac ++ s.our_mac ++ bytes16 (htons16 ethertype) ++ payload in
    record s { sent = s.sent ++ ((frame ++ replicate (60 - length frame) 0) ∷ []) }

abbrev pub arp_packet : (op : ℕ) → (sha : List ℕ) → (spa : ℕ) → (tha : List ℕ) → (tpa : ℕ) → List ℕ
arp_packet op sha spa tha tpa =
    bytes16 (htons16 1)
    ++ bytes16 (htons16 eth_ip)
    ++ (6 ∷ 4 ∷ [])
    ++ bytes16 (htons16 op)
    ++ sha
    ++ bytes32 spa
    ++ tha
    ++ bytes32 tpa

pub arp_request : Net → ℕ → Net
unfolding eth_send
arp_request s ip = eth_send s bcast_mac eth_arp (arp_packet 1 s.our_mac s.our_ip (replicate 6 0) ip)

-- The hop to which a packet for an address goes.
abbrev pub next_hop : Net → ℕ → ℕ
next_hop s dst =
    if not (s.our_mask == 0) && not (bit_and dst s.our_mask == bit_and s.our_ip s.our_mask)
    then s.our_gw
    else dst

-- `awaited` is what the polling finds.
unfoldable pub resolve_mac : (awaited : Option (List ℕ)) → Net → ℕ → Option (List ℕ) × Net
unfolding arp_cache_get arp_request
resolve_mac awaited s dst =
    let hop = next_hop s dst in
    let known : Option (List ℕ) × Net = elim (arp_cache_get s.arp_cache hop) [
      | some mac ↦ (some mac, s)
      | none ↦ (awaited, arp_request s hop)
    ] in
    if (hop == 0xffffffff) || (hop == 0) then (some bcast_mac, s) else known

-- The header's first 10 bytes, and the 8 behind its checksum.
abbrev pub ip_head : (id proto len : ℕ) → List ℕ
ip_head id proto len =
    (0x45 ∷ 0 ∷ [])
    ++ bytes16 (htons16 ((20 + len) % 65536))
    ++ bytes16 (htons16 id)
    ++ bytes16 (htons16 0x4000)
    ++ (64 ∷ proto ∷ [])

abbrev pub ip_addresses : Net → ℕ → List ℕ
ip_addresses s dst = bytes32 s.our_ip ++ bytes32 dst

abbrev pub ip_packet : Net → (dst proto : ℕ) → List ℕ → (csum : ℕ) → List ℕ
ip_packet s dst proto payload csum =
    ip_head s.ip_id proto (length payload) ++ bytes16 csum ++ ip_addresses s dst ++ payload

unfoldable pub ip_send : (awaited : Option (List ℕ)) → Net → (dst proto : ℕ) → List ℕ → Option Net
unfolding resolve_mac eth_send
ip_send awaited s dst proto payload =
    let r = resolve_mac awaited s dst in
    let t = r.1 in
    let counted = record t { ip_id = (t.ip_id + 1) % 65536 } in
    elim r.0 [
      | none ↦ some t
      | some mac ↦ elim (checksum16 (ip_packet t dst proto [] 0) 0) [
        | none ↦ none
        | some csum ↦ some (eth_send counted mac eth_ip (ip_packet t dst proto payload csum))
      ]
    ]

abbrev pub arp_size : ℕ
arp_size = 28

-- A request for our address is answered.
pub handle_arp : Net → List ℕ → Net
unfolding arp_cache_put eth_send
handle_arp s p =
    let spa = field32 p 14 in
    let sha = take 6 (drop 8 p) in
    let t = record s { arp_cache = arp_cache_put s.arp_cache spa sha } in
    let asked = htons16 (field16 p 6) == 1 && not (s.our_ip == 0) && (field32 p 24 == s.our_ip) in
    if ltb (length p) arp_size
    then s
    else if asked
    then eth_send t sha eth_arp (arp_packet 2 s.our_mac s.our_ip sha spa)
    else t

-- A reply to an echo request is the request with the type 0 and its own checksum.
abbrev pub echo_reply : List ℕ → (csum : ℕ) → List ℕ
echo_reply p csum = (0 ∷ take 1 (drop 1 p)) ++ bytes16 csum ++ drop 4 p

pub handle_icmp : (awaited : Option (List ℕ)) → Net → (src : ℕ) → List ℕ → Option Net
unfolding ip_send
handle_icmp awaited s src p =
    let reply : Option Net = elim (checksum16 (echo_reply p 0) 0) [
      | none ↦ none
      | some csum ↦ ip_send awaited s src 1 (echo_reply p csum)
    ] in
    let awaited_reply =
      byte_at p 0 == 0
      && s.icmp_waiting
      && (field16 p 4 == s.icmp_id)
      && (field16 p 6 == s.icmp_seq) in
    if ltb (length p) 8
    then some s
    else if byte_at p 0 == 8
    then reply
    else some (if awaited_reply then record s { icmp_got = true } else s)

-- `dlen` is negative in C where the length field is below 8.
pub handle_udp : Net → (src : ℕ) → List ℕ → Net
handle_udp s src p =
    let dport = htons16 (field16 p 2) in
    let udp_size = htons16 (field16 p 4) in
    let dlen = udp_size - 8 in
    let listening = not (s.udp_port == 0) && (dport == s.udp_port) && (s.udp_len == 0) in
    let fits = not (dlen == 0) && leb dlen udp_buf_size && leb dlen (length p - 8) in
    if ltb (length p) 8
    then s
    else if listening && fits
    then record s {
      udp_data = take dlen (drop 8 p) ++ drop dlen s.udp_data;
      udp_src_ip = src;
      udp_len = dlen;
    }
    else s

-- The payload of an IP packet `p` behind a header of `ihl` bytes: the length field cuts it off, unless
-- it is wrong. A header that is longer than the packet leaves nothing.
abbrev pub ip_payload : List ℕ → List ℕ
ip_payload p =
    let ihl = byte_at p 0 % 16 * 4 in
    let total_len = htons16 (field16 p 2) in
    let room = length p - ihl in
    let dlen = if ltb total_len ihl || ltb room (total_len - ihl) then room else total_len - ihl in
    take dlen (drop ihl p)

pub handle_ip : (awaited : Option (List ℕ)) → Net → List ℕ → Option Net
unfolding handle_icmp handle_udp
handle_ip awaited s p =
    let src = field32 p 12 in
    let dst = field32 p 16 in
    let elsewhere = not (s.our_ip == 0) && not (dst == s.our_ip) && not (dst == 0xffffffff) in
    if elsewhere
    then some s
    else if byte_at p 9 == 1
    then handle_icmp awaited s src (ip_payload p)
    else some (if byte_at p 9 == 17 then handle_udp s src (ip_payload p) else s)

pub handle_frame : (awaited : Option (List ℕ)) → Net → List ℕ → Option Net
unfolding handle_arp handle_ip
handle_frame awaited s frame =
    let type = htons16 (field16 frame 12) in
    let payload = drop 14 frame in
    if ltb (length frame) 14
    then some s
    else if type == eth_arp
    then some (handle_arp s payload)
    else if not (type == eth_ip) || ltb (length payload) 20
    then some s
    else handle_ip awaited s payload
