-- ===== src/Tests/LlmRuns.antt =====
-- kernel/src/llm_common.c with a vocabulary of two strings.
use choco_os.Base.{zero, suc, ◌≡◌, refl, List, [], ◌∷◌, some, arith}
use choco_os.LlmCommon.{TokenIndex, tok_lookup, tok_sort}
use choco_os.LlmCommon.Swap.{SameTokens}
use choco_os.LlmCommon.Sort.{tok_sort-IsSorted}
use choco_os.LlmCommon.Lookup.{IsSorted, AreStrings, Looked, tok_lookup-Looked}

abbrev vocab : List TokenIndex
vocab = record { str = 97 ∷ []; id = 7 } ∷ record { str = 98 ∷ []; id = 4 } ∷ []

vocab-IsSorted : IsSorted vocab
vocab-IsSorted zero zero lt h = absurd (omega arith)
vocab-IsSorted zero (suc zero) lt h = refl
vocab-IsSorted zero (suc (suc j)) lt h = absurd (omega arith)
vocab-IsSorted (suc i) zero lt h = absurd (omega arith)
vocab-IsSorted (suc i) (suc zero) lt h = absurd (omega arith)
vocab-IsSorted (suc i) (suc (suc j)) lt h = absurd (omega arith)

vocab-AreStrings : AreStrings vocab
vocab-AreStrings zero h = (omega arith, tt)
vocab-AreStrings (suc zero) h = (omega arith, tt)
vocab-AreStrings (suc (suc i)) h = absurd (omega arith)

tok_lookup-Looked_example : Looked (98 ∷ []) vocab (tok_lookup (98 ∷ []) vocab)
tok_lookup-Looked_example =
    tok_lookup-Looked (98 ∷ []) vocab vocab-IsSorted (omega arith, tt) vocab-AreStrings

-- A letter, a right quote in UTF-8, and a byte that is dropped.
abbrev shuffled : List TokenIndex
shuffled =
    record { str = 99 ∷ []; id = 1 }
    ∷ record { str = 97 ∷ []; id = 7 }
    ∷ record { str = 98 ∷ []; id = 4 }
    ∷ []

shuffled-AreStrings : AreStrings shuffled
shuffled-AreStrings zero h = (omega arith, tt)
shuffled-AreStrings (suc zero) h = (omega arith, tt)
shuffled-AreStrings (suc (suc zero)) h = (omega arith, tt)
shuffled-AreStrings (suc (suc (suc i))) h = absurd (omega arith)

tok_sort-IsSorted_example :
    (r : List TokenIndex) × (tok_sort shuffled ≡ some r)
    × SameTokens r shuffled
    × AreStrings r
    × IsSorted r
tok_sort-IsSorted_example = tok_sort-IsSorted shuffled shuffled-AreStrings

tok_sort_run :
    tok_sort shuffled
    ≡ some (
        record { str = 97 ∷ []; id = 7 }
        ∷ record { str = 98 ∷ []; id = 4 }
        ∷ record { str = 99 ∷ []; id = 1 }
        ∷ [])
unfolding tok_sort
tok_sort_run = refl
