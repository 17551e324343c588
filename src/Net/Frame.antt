-- ===== src/Net/Frame.antt =====
-- kernel/src/net.c: every incoming frame is handled, and leaves the socket valid.
use choco_os.Base.{
  ℕ, ◌+◌, ◌-◌, ◌*◌, ◌%◌, ◌^◌, ◌<◌, ◌≡◌, refl, true, not, ◌&&◌, ◌||◌, ltb, ◌==◌, if◌then◌else◌,
  Option, some, List, [], ◌∷◌, length, drop, arith, Bool-cases, inl, inr, Option-cases, byte_at,
}
use choco_os.Net.{
  Net, word_sum, checksum16, htons16, resolve_mac, arp_cache_get, next_hop, arp_request, eth_send,
  ip_send, ip_packet, eth_ip, eth_arp, handle_arp, handle_icmp, handle_udp, handle_ip, handle_frame,
  echo_reply, ip_payload, field32, field16,
}
use choco_os.Net.Checksum.{folds}
use choco_os.Net.Udp.{IsSocket, handle_udp-Delivered}

word_sum-lt : (p : List ℕ) (sum : ℕ) → sum < 2 ^ 32 → word_sum p sum < 2 ^ 32
unfolding word_sum
word_sum-lt [] sum h = h
word_sum-lt (a ∷ []) sum h = omega arith
word_sum-lt (a ∷ b ∷ rest) sum h = word_sum-lt rest ((sum + (a * 256 + b)) % 2 ^ 32) (omega arith)

checksum16-some : (p : List ℕ) → (c : ℕ) × (checksum16 p 0 ≡ some c)
unfolding checksum16
checksum16-some p =
    let (r, e, f) = folds (word_sum p 0) (word_sum-lt p 0 (omega arith)) in
    (htons16 (65535 - r), rw (e, checksum16) refl)

-- What the socket keeps from one state to another.
abbrev Keeps : Net → Net → Type 0
Keeps s s' = (s'.udp_data ≡ s.udp_data) × (s'.udp_len ≡ s.udp_len)

Keeps-IsSocket : (s s' : Net) → Keeps s s' → IsSocket s → IsSocket s'
Keeps-IsSocket s s' k i = record { buffer = rw k.0 i.buffer; inside = rw k.1 i.inside }

resolve_mac-Keeps :
    (awaited : Option (List ℕ)) (s : Net) (dst : ℕ) → Keeps s (resolve_mac awaited s dst).1
unfolding resolve_mac arp_request eth_send
resolve_mac-Keeps awaited s dst =
    let hop = next_hop s dst in
    elim (Bool-cases ((hop == 0xffffffff) || (hop == 0))) [
      | inl e ↦ rw e (refl, refl)
      | inr e ↦ elim (Option-cases (arp_cache_get s.arp_cache hop)) [
        | inl m ↦ rw (e, m) (refl, refl)
        | inr m ↦ rw (e, m.1) (refl, refl)
      ]
    ]

abbrev Handled : Net → Option Net → Type 0
Handled s r = (s' : Net) × (r ≡ some s') × Keeps s s'

ip_send-Handled :
    (awaited : Option (List ℕ)) (s : Net) (dst proto : ℕ) (payload : List ℕ)
    → Handled s (ip_send awaited s dst proto payload)
unfolding ip_send eth_send
ip_send-Handled awaited s dst proto payload =
    let r = resolve_mac awaited s dst in
    let k = resolve_mac-Keeps awaited s dst in
    let (c, e) = checksum16-some (ip_packet r.1 dst proto [] 0) in
    elim (Option-cases r.0) [
      | inl unresolved ↦ (r.1, rw (unresolved, ip_send) refl, k)
      | inr mac ↦ (
        eth_send (record r.1 { ip_id = (r.1.ip_id + 1) % 65536 }) mac.0 eth_ip
            (ip_packet r.1 dst proto payload c),
        rw (mac.1, ip_send) (rw e refl),
        k,
      )
    ]

handle_arp-Keeps : (s : Net) (p : List ℕ) → Keeps s (handle_arp s p)
unfolding handle_arp eth_send
handle_arp-Keeps s p = ground arith

handle_icmp-Handled :
    (awaited : Option (List ℕ)) (s : Net) (src : ℕ) (p : List ℕ)
    → Handled s (handle_icmp awaited s src p)
unfolding handle_icmp
handle_icmp-Handled awaited s src p =
    let (c, e) = checksum16-some (echo_reply p 0) in
    let (s', sends, k) = ip_send-Handled awaited s src 1 (echo_reply p c) in
    elim (Bool-cases (ltb (length p) 8)) [
      | inl short ↦ (s, rw short refl, (refl, refl))
      | inr long ↦ elim (Bool-cases (byte_at p 0 == 8)) [
        | inl echo ↦ (s', rw (long, echo) (rw e sends), k)
        | inr no_echo ↦ (
          (let awaited_reply =
                byte_at p 0 == 0
                && s.icmp_waiting
                && (field16 p 4 == s.icmp_id)
                && (field16 p 6 == s.icmp_seq) in
              if awaited_reply then record s { icmp_got = true } else s),
          rw (long, no_echo) refl,
          ground arith,
        )
      ]
    ]

handle_ip-IsSocket :
    (awaited : Option (List ℕ)) (s : Net) (p : List ℕ)
    → IsSocket s
    → (s' : Net) × (handle_ip awaited s p ≡ some s') × IsSocket s'
unfolding handle_ip
handle_ip-IsSocket awaited s p i =
    let src = field32 p 12 in
    let dst = field32 p 16 in
    elim (Bool-cases (not (s.our_ip == 0) && not (dst == s.our_ip) && not (dst == 0xffffffff))) [
      | inl elsewhere ↦ (s, rw elsewhere refl, i)
      | inr here ↦ elim (Bool-cases (byte_at p 9 == 1)) [
        | inl icmp ↦
            let (s', e, k) = handle_icmp-Handled awaited s src (ip_payload p) in
            (s', rw (here, icmp) e, Keeps-IsSocket s s' k i)
        | inr no_icmp ↦ elim (Bool-cases (byte_at p 9 == 17)) [
          | inl udp ↦ (
            handle_udp s src (ip_payload p),
            rw (here, no_icmp, udp) refl,
            (handle_udp-Delivered s src (ip_payload p) i).0,
          )
          | inr no_udp ↦ (s, rw (here, no_icmp, no_udp) refl, i)
        ]
      ]
    ]

-- Every frame is handled: `handle_frame` on a state with a valid socket ends, whatever the frame and
-- whatever the wait for an ARP reply comes to, in a state with a valid socket.
pub handle_frame-IsSocket :
    (awaited : Option (List ℕ)) (s : Net) (frame : List ℕ)
    → IsSocket s
    → (s' : Net) × (handle_frame awaited s frame ≡ some s') × IsSocket s'
unfolding handle_frame
handle_frame-IsSocket awaited s frame i =
    let p = drop 14 frame in
    elim (Bool-cases (ltb (length frame) 14)) [
      | inl short ↦ (s, rw short refl, i)
      | inr long ↦ elim (Bool-cases (htons16 (field16 frame 12) == eth_arp)) [
        | inl arp ↦ (
          handle_arp s p,
          rw (long, arp) refl,
          Keeps-IsSocket s (handle_arp s p) (handle_arp-Keeps s p) i,
        )
        | inr no_arp ↦
            elim (Bool-cases (not (htons16 (field16 frame 12) == eth_ip) || ltb (length p) 20)) [
              | inl other ↦ (s, rw (long, no_arp, other) refl, i)
              | inr ip ↦
                  let (s', e, i') = handle_ip-IsSocket awaited s p i in
                  (s', rw (long, no_arp, ip) e, i')
            ]
      ]
    ]
