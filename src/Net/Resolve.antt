-- ===== src/Net/Resolve.antt =====
-- kernel/src/net.c: `net_resolve`. `ticks` is the timer at the query and `eport` the static variable. The
-- loop has one element of `arrivals` for each poll before the deadline: what the receiving thread does to
-- the stack while the loop sleeps behind that poll. An address is its four bytes.
pub mod Answered
use choco_os.Base.{
  ℕ, ◌+◌, ◌/◌, ◌%◌, ◌^◌, Bool, true, false, not, ◌||◌, ltb, ◌==◌, if◌then◌else◌, Option, none, some,
  List, [], ◌∷◌,
}
use choco_os.Net.{Net}
use choco_os.Net.Address.{str_to_ip}
use choco_os.Net.Dns.{dns_query, dns_answer, next_eport}
use choco_os.Net.Dhcp.{Client, udp_send}

-- The result, `none` for false, with the variables that have changed.
pub record Resolved : Type 0 where
  pub ip_out : Option (List ℕ)
  pub eport : ℕ
  pub client : Client

pub closed : Net → Net
closed s = record s { udp_port = 0; udp_len = 0 }

-- The polls of the socket. The inner `none` is the deadline, the outer one a loop that has not ended.
unfoldable pub resolve_wait :
    (qid : ℕ) → (arrivals : List (Net → Net)) → Net → Option (Option (List ℕ) × Net)
resolve_wait qid [] s = some (none, record s { udp_port = 0 })
resolve_wait qid (arrive ∷ later) s =
    let quiet = resolve_wait qid later (arrive s) in
    let missed = resolve_wait qid later (arrive (record s { udp_len = 0 })) in
    let read : Option (Option (List ℕ) × Net) = elim (dns_answer qid s.udp_data s.udp_len) [
      | none ↦ none
      | some none ↦ missed
      | some (some ip) ↦ some (some ip, closed s)
    ] in
    if ltb 0 s.udp_len then read else quiet

-- The part behind the query `q`: the socket is opened, the query is sent, and the answer waited for.
pub resolve_query :
    (qid eport : ℕ)
    → (awaited : Option (List ℕ)) → (arrivals : List (Net → Net)) → Client
    → (q : List ℕ) → Option Resolved
resolve_query qid eport awaited arrivals c q =
    let opened = record (c.net) { udp_len = 0; udp_port = eport } in
    elim (udp_send awaited opened c.our_dns eport 53 q) [
      | none ↦ none
      | some sent ↦ elim (resolve_wait qid arrivals sent) [
        | none ↦ none
        | some r ↦
            some
              (record { ip_out = r.0; eport = next_eport eport; client = record c { net = r.1 } })
      ]
    ]

pub net_resolve :
    (ticks eport : ℕ)
    → (awaited : Option (List ℕ)) → (arrivals : List (Net → Net)) → Client
    → (name : List ℕ) → Option Resolved
net_resolve ticks eport awaited arrivals c name =
    let failed : Resolved = record { ip_out = none; eport = eport; client = c } in
    let qid = ticks % 2 ^ 16 in
    let asked : Option Resolved = elim (dns_query qid name) [
      | none ↦ none
      | some none ↦ some failed
      | some (some q) ↦ resolve_query qid eport awaited arrivals c q
    ] in
    elim (str_to_ip name) [
      | some ip ↦ some (record { ip_out = some ip; eport = eport; client = c })
      | none ↦ if not c.configured || (c.our_dns == 0) then some failed else asked
    ]
