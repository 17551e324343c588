-- ===== src/Net/Dhcp.antt =====
-- kernel/src/net.c: sending UDP, the DHCP client and ping. A wait is the list of the states in which
-- the code finds the stack when it polls, up to the deadline: the thread that receives runs in
-- between. `stack` is what an array on the stack holds before it is written.
pub mod Options
use choco_os.Base.{
  ℕ, zero, suc, ◌+◌, ◌-◌, ◌*◌, ◌/◌, ◌%◌, ◌^◌, Bool, true, false, not, ◌&&◌, ◌||◌, ltb, leb, ◌==◌,
  if◌then◌else◌, Option, none, some, List, [], ◌∷◌, ◌++◌, length, take, drop, replicate, byte_at,
  bit_xor, min, sub_word, as_int, ℤ, negsuc,
}
use choco_os.Net.{Net, htons16, field16, field32, bytes16, bytes32, checksum16, ip_send, bcast_mac}

-- The variables of net.c that the client needs besides.
pub record Client : Type 0 where
  pub net : Net
  pub nic_up : Bool
  pub configured : Bool
  pub our_dns : ℕ

pub htonl32 : ℕ → ℕ
htonl32 v = v % 256 * 2 ^ 24 + v / 256 % 256 * 65536 + v / 65536 % 256 * 256 + v / 2 ^ 24 % 256

abbrev pub udp_packet : (sport dport : ℕ) → List ℕ → List ℕ
udp_packet sport dport payload =
    bytes16 (htons16 sport)
    ++ (bytes16 (htons16 dport)
        ++ (bytes16 (htons16 ((8 + length payload) % 65536)) ++ (0 ∷ 0 ∷ payload)))

unfoldable pub udp_send :
    (awaited : Option (List ℕ)) → Net → (dst_ip sport dport : ℕ) → List ℕ → Option Net
udp_send awaited s dst_ip sport dport payload =
    ip_send awaited s dst_ip 17 (udp_packet sport dport payload)

abbrev pub dhcp_size : ℕ
dhcp_size = 240

abbrev pub dhcp_magic : ℕ
dhcp_magic = 0x63825363

-- The options of a message: its type, the address and the server if they are known, and what is asked
-- for.
pub dhcp_options : (msg_type req_ip server_ip : ℕ) → List ℕ
dhcp_options msg_type req_ip server_ip =
    (53 ∷ 1 ∷ msg_type ∷ [])
    ++ ((if req_ip == 0 then [] else 50 ∷ 4 ∷ bytes32 req_ip)
        ++ ((if server_ip == 0 then [] else 54 ∷ 4 ∷ bytes32 server_ip)
            ++ (55 ∷ 3 ∷ 1 ∷ 3 ∷ 6 ∷ 255 ∷ [])))

pub dhcp_build : (our_mac : List ℕ) → (msg_type xid req_ip server_ip : ℕ) → List ℕ
unfolding htonl32 dhcp_options
dhcp_build our_mac msg_type xid req_ip server_ip =
    (1 ∷ 1 ∷ 6 ∷ 0 ∷ [])
    ++ bytes32 xid
    ++ (0 ∷ 0 ∷ [])
    ++ bytes16 (htons16 0x8000)
    ++ replicate 16 0
    ++ our_mac
    ++ replicate 202 0
    ++ bytes32 (htonl32 dhcp_magic)
    ++ dhcp_options msg_type req_ip server_ip

-- The loop that three functions have:
-- `for (int i = 0; i + 1 < olen && o[i] != 255;)`, with `visit` for what is done with the option of
-- that code and length whose value stands at an index.
pub scan_options {ℓ} :
    {S : Type ℓ}
    → (rounds : ℕ) → (visit : (code len value : ℕ) → S → S) → List ℕ
    → (olen i : ℕ) → S
    → Option S
scan_options zero visit o olen i s = none
scan_options (suc rounds) visit o olen i s =
    let code = byte_at o i in
    let len = byte_at o (i + 1) in
    let padded = scan_options rounds visit o olen (i + 1) s in
    let next = scan_options rounds visit o olen (i + (2 + len)) (visit code len (i + 2) s) in
    if not (ltb (i + 1) olen && not (code == 255))
    then some s
    else if code == 0
    then padded
    else next

pub message_type : List ℕ → (olen : ℕ) → Option ℕ
message_type o olen =
    scan_options (olen + 1) (λ code len value t. if code == 53 then byte_at o value else t) o olen 0
      0

pub offered_server : List ℕ → (olen : ℕ) → Option ℕ
offered_server o olen =
    scan_options (olen + 1) (λ code len value t. if code == 54 then field32 o value else t) o olen 0
      0

-- The mask, the gateway and the DNS server.
abbrev pub Config : Type 0
Config = ℕ × ℕ × ℕ

-- What `dhcp_parse_opts` does with one option.
abbrev pub configure : List ℕ → (code len value : ℕ) → Config → Config
configure o code len value c =
    if code == 1 && leb 4 len
    then (field32 o value, c.1, c.2)
    else if code == 3 && leb 4 len
    then (c.0, field32 o value, c.2)
    else if code == 6 && leb 4 len
    then (c.0, c.1, field32 o value)
    else c

pub dhcp_parse_opts : List ℕ → (olen : ℕ) → Config → Option Config
unfolding scan_options
dhcp_parse_opts o olen c = scan_options (olen + 1) (configure o) o olen 0 c

-- What `dhcp_wait` gives: the reply, the array of options and how many of its bytes are in use, and
-- the stack with its socket emptied.
pub record Reply : Type 0 where
  pub packet : List ℕ
  pub opts : List ℕ
  pub opts_len : ℕ
  pub net : Net

abbrev pub emptied : Net → Net
emptied s = record s { udp_len = 0 }

-- Whether the socket holds a reply of the wanted type.
pub is_reply : (xid want_type : ℕ) → Net → Option Bool
is_reply xid want_type s =
    let d = s.udp_data in
    let typed : Option Bool = elim (message_type (drop dhcp_size d) (s.udp_len - dhcp_size)) [
      | none ↦ none
      | some type ↦ some (type == want_type)
    ] in
    if leb dhcp_size s.udp_len && (byte_at d 0 == 2) && (field32 d 4 == xid)
    then typed
    else some false

abbrev pub copied : (opts : List ℕ) → Net → Reply
copied opts s =
    let olen = min (s.udp_len - dhcp_size) 312 in
    record {
      packet = take dhcp_size s.udp_data;
      opts = take olen (drop dhcp_size s.udp_data) ++ drop olen opts;
      opts_len = olen;
      net = emptied s;
    }

-- The outer `none` is a scan that has not ended, the inner one the timeout.
pub dhcp_wait : (xid want_type : ℕ) → (opts : List ℕ) → List Net → Option (Option Reply)
dhcp_wait xid want_type opts [] = some none
dhcp_wait xid want_type opts (s ∷ polls) =
    let later = dhcp_wait xid want_type opts polls in
    let looked : Option (Option Reply) = elim (is_reply xid want_type s) [
      | none ↦ none
      | some true ↦ some (some (copied opts s))
      | some false ↦ later
    ] in
    if ltb 0 s.udp_len then looked else later

-- The socket opened or closed.
abbrev pub on_port : ℕ → Client → Client
on_port port c = record c { net = record (c.net) { udp_port = port } }

-- The end of `net_dhcp`, with the acknowledgement: the address and what its options say.
pub dhcp_bind : Client → Reply → Option Client
dhcp_bind c r = elim (dhcp_parse_opts r.opts r.opts_len (r.net.our_mask, r.net.our_gw, c.our_dns)) [
  | none ↦ none
  | some (mask, gw, dns) ↦ some (record c {
    net = record (r.net) {
      our_ip = field32 r.packet 16;
      our_mask = mask;
      our_gw = gw;
      udp_port = 0;
    };
    configured = true;
    our_dns = dns;
  })
]

-- The second half of `net_dhcp`, from the offer on: the request, the wait for the acknowledgement and
-- the new configuration. `acks` and `at_timeout` are what the wait finds, given the stack at its start.
pub dhcp_request :
    (xid : ℕ)
    → (acks : Net → List Net) → (at_timeout : Net → Net) → Client
    → Reply
    → Option (Bool × Client)
dhcp_request xid acks at_timeout c r = elim (offered_server r.opts r.opts_len) [
  | none ↦ none
  | some server ↦
      let request = dhcp_build c.net.our_mac 3 xid (field32 r.packet 16) server in
      elim (udp_send none r.net 0xffffffff 68 67 request) [
        | none ↦ none
        | some sent ↦ elim (dhcp_wait xid 5 r.opts (acks sent)) [
          | none ↦ none
          | some none ↦ some (false, on_port 0 (record c { net = at_timeout sent }))
          | some (some a) ↦ elim (dhcp_bind c a) [ none ↦ none | some c' ↦ some (true, c') ]
        ]
      ]
]

-- `net_dhcp` with `ticks` for the timer at its start.
pub net_dhcp :
    (ticks : ℕ)
    → (stack : List ℕ) → (offers acks : Net → List Net) → (at_timeout : Net → Net) → Client
    → Option (Bool × Client)
net_dhcp ticks stack offers acks at_timeout c =
    let xid = bit_xor (ticks % 2 ^ 32) 0xc0c0a0a0 in
    let opened = record (c.net) { udp_len = 0; udp_port = 68 } in
    let discover = dhcp_build c.net.our_mac 1 xid 0 0 in
    let asked : Option (Bool × Client) = elim (udp_send none opened 0xffffffff 68 67 discover) [
      | none ↦ none
      | some sent ↦ elim (dhcp_wait xid 2 stack (offers sent)) [
        | none ↦ none
        | some none ↦ some (false, on_port 0 (record c { net = at_timeout sent }))
        | some (some r) ↦ dhcp_request xid acks at_timeout c r
      ]
    ] in
    if not c.nic_up then some (false, c) else if c.configured then some (true, c) else asked

-- The 32 letters of an echo request.
pub ping_letters : (count i : ℕ) → List ℕ
ping_letters zero i = []
ping_letters (suc count) i = (97 + i % 23) ∷ ping_letters count (i + 1)

abbrev pub ping_packet : (seq csum : ℕ) → List ℕ
ping_packet seq csum =
    (8 ∷ 0 ∷ [])
    ++ (bytes16 csum ++ (bytes16 (htons16 0xc0c0) ++ (bytes16 (htons16 seq) ++ ping_letters 32 0)))

-- The wait of `net_ping`, with the stack and the timer at each poll: the time that has passed and the
-- stack when the reply is there.
pub ping_wait : (t0 : ℕ) → List (Net × ℕ) → Option (ℕ × Net)
ping_wait t0 [] = none
ping_wait t0 ((s, now) ∷ polls) =
    let later = ping_wait t0 polls in if s.icmp_got then some (sub_word 64 now t0, s) else later

abbrev pub ping_result : (at_timeout : Net) → Option (ℕ × Net) → ℤ × Net
ping_result at_timeout none = (negsuc 0, record at_timeout { icmp_waiting = false })
ping_result at_timeout (some (ms, s)) = (as_int ms, record s { icmp_waiting = false })

pub net_ping :
    (awaited : Option (List ℕ))
    → (t0 : ℕ) → (polls : Net → List (Net × ℕ)) → (at_timeout : Net → Net) → Client
    → (ip seq : ℕ) → Option (ℤ × Net)
net_ping awaited t0 polls at_timeout c ip seq =
    let armed = record (c.net) {
      icmp_id = htons16 0xc0c0;
      icmp_seq = htons16 seq;
      icmp_got = false;
      icmp_waiting = true;
    } in
    let pinged : Option (ℤ × Net) = elim (checksum16 (ping_packet seq 0) 0) [
      | none ↦ none
      | some csum ↦ elim (ip_send awaited armed ip 1 (ping_packet seq csum)) [
        | none ↦ none
        | some sent ↦ some (ping_result (at_timeout sent) (ping_wait t0 (polls sent)))
      ]
    ] in
    if not c.configured then some (negsuc 0, c.net) else pinged
