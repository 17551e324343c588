-- ===== src/Tests/DnsRuns.antt =====
-- kernel/src/net.c: a DNS reply with a pointer as the owner of its one answer, a query, and the options
-- of a DHCP message.
use choco_os.Base.{ℕ, ◌≡◌, refl, List, [], ◌∷◌, ◌++◌, some, none, take, drop, arith, codes}
use choco_os.Net.Dns.{
  dns_answer, walk_answers, skip_name, skip_labels, dns_query, put_labels, label_of, after_label,
}
use choco_os.Net.Dhcp.{dhcp_parse_opts}
use choco_os.Net.Dhcp.Options.{DhcpOption, options_text, configured_by, dhcp_parse_opts-text}
use choco_os.Net.Dns.Reply.{Answer, pointer, first_address}
use choco_os.Net.Dns.Answers.{IsReply, dns_answer-first}

-- The reply to query 258 for `a.b`: the address 10.0.2.3.
abbrev pub reply : List ℕ
reply =
    (1 ∷ 2 ∷ 129 ∷ 128 ∷ 0 ∷ 1 ∷ 0 ∷ 1 ∷ 0 ∷ 0 ∷ 0 ∷ 0 ∷ [])
    ++ (1 ∷ 97 ∷ 1 ∷ 98 ∷ 0 ∷ 0 ∷ 1 ∷ 0 ∷ 1 ∷ [])
    ++ (192 ∷ 12 ∷ 0 ∷ 1 ∷ 0 ∷ 1 ∷ 0 ∷ 0 ∷ 0 ∷ 60 ∷ 0 ∷ 4 ∷ 10 ∷ 0 ∷ 2 ∷ 3 ∷ [])

abbrev pub address : Answer
address = record {
  owner = pointer 192 12;
  kind = 1;
  class_ttl = 0 ∷ 1 ∷ 0 ∷ 0 ∷ 0 ∷ 60 ∷ [];
  rdata = 10 ∷ 0 ∷ 2 ∷ 3 ∷ [];
}

pub reply-IsReply : IsReply 258 reply 37 ((97 ∷ []) ∷ (98 ∷ []) ∷ []) (address ∷ [])
reply-IsReply = record {
  id = omega arith;
  count = refl;
  type_class = 0 ∷ 1 ∷ 0 ∷ 1 ∷ [];
  four = refl;
  text = omega arith;
  size = refl;
  room = omega arith;
  labels = omega arith;
  spelled_answers = omega arith;
}

dns_answer-first_example : dns_answer 258 reply 37 ≡ some (first_address (address ∷ []))
dns_answer-first_example =
    dns_answer-first 258 reply 37 ((97 ∷ []) ∷ (98 ∷ []) ∷ []) (address ∷ []) reply-IsReply

query_run :
    dns_query 258 (codes "a.b")
    ≡ some (
        some (
          1 ∷ 2 ∷ 1 ∷ 0 ∷ 0 ∷ 1 ∷ 0 ∷ 0 ∷ 0 ∷ 0 ∷ 0 ∷ 0 ∷ 1 ∷ 97 ∷ 1 ∷ 98 ∷ 0 ∷ 0 ∷ 1 ∷ 0 ∷ 1 ∷ []))
unfolding dns_query put_labels label_of after_label
query_run = refl

-- The options of a DHCP acknowledgement: its type, the mask and the DNS server.
abbrev ack_options : List DhcpOption
ack_options =
    record { code = 53; value = 5 ∷ [] }
    ∷ record { code = 1; value = 255 ∷ 255 ∷ 255 ∷ 0 ∷ [] }
    ∷ record { code = 6; value = 10 ∷ 0 ∷ 2 ∷ 3 ∷ [] }
    ∷ []

dhcp_parse_opts-text_example :
    dhcp_parse_opts (options_text ack_options) 312 (0, 7, 0)
    ≡ some (configured_by ack_options (0, 7, 0))
dhcp_parse_opts-text_example =
    dhcp_parse_opts-text (options_text ack_options) 312 ack_options (0, 7, 0) (omega arith)
      (omega arith) (omega arith)

-- The same reply, with the name of its answer spelled as the label `a` and a pointer to `b` in the question:
-- the address in it is not found.
abbrev compressed : List ℕ
compressed = take 21 reply ++ (1 ∷ 97 ∷ 192 ∷ 14 ∷ []) ++ drop 23 reply

compressed_run : dns_answer 258 compressed 39 ≡ some none
unfolding dns_answer walk_answers skip_name skip_labels
compressed_run = refl
