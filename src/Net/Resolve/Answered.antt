-- ===== src/Net/Resolve/Answered.antt =====
-- kernel/src/net.c: `net_resolve` asks for the name and returns the address of the reply.
use choco_os.Base.{ℕ, ◌/◌, ◌%◌, ◌<◌, ◌≡◌, false, ◌==◌, none, some, List, [], ◌∷◌, ◌++◌, length}
use choco_os.Net.{Net}
use choco_os.Net.Dns.{dot, dns_answer}
use choco_os.Net.Dns.Reply.{labels_text}

-- A name in dotted notation.
abbrev pub dotted : List (List ℕ) → List ℕ
dotted [] = []
dotted (l ∷ []) = l
dotted (l ∷ m ∷ ls) = l ++ dot ∷ dotted (m ∷ ls)

-- A label has no dot in it.
abbrev pub NoDot : List ℕ → Type 0
NoDot [] = Unit {0}
NoDot (c ∷ cs) = ((c == dot) ≡ false) × NoDot cs

abbrev pub AreHostLabels : List (List ℕ) → Type 0
AreHostLabels [] = Unit {0}
AreHostLabels (l ∷ ls) = (0 < length l) × (length l < 64) × NoDot l × AreHostLabels ls

-- The query for a name: its id, the flag that asks for recursion, one question, the labels with a zero
-- behind them, and an address of the Internet.
abbrev pub query_text : (qid : ℕ) → List (List ℕ) → List ℕ
query_text qid ls =
    (qid / 256 ∷ qid % 256 ∷ 1 ∷ 0 ∷ 0 ∷ 1 ∷ 0 ∷ 0 ∷ 0 ∷ 0 ∷ 0 ∷ 0 ∷ [])
    ++ labels_text ls
    ++ (0 ∷ 0 ∷ 1 ∷ 0 ∷ 1 ∷ [])

-- What a poll leaves in the socket that had no answer.
abbrev pub drained : Net → Net
drained s = record s { udp_len = 0 }

-- The stack behind some polls without an answer, and that none of them finds one: the socket is empty, or
-- its datagram is no reply with an address.
abbrev pub reached : Net → List (Net → Net) → Net
reached s [] = s
reached s (f ∷ fs) = reached (f (drained s)) fs

abbrev pub Unanswered : ℕ → Net → List (Net → Net) → Type 0
Unanswered qid s [] = Unit {0}
Unanswered qid s (f ∷ fs) =
    (0 < s.udp_len → dns_answer qid s.udp_data s.udp_len ≡ some none)
    × Unanswered qid (f (drained s)) fs
