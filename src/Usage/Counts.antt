-- ===== src/Usage/Counts.antt =====
-- src/usage.go: the arithmetic of the counts of a group, a bucket and the summary.
use agy_identity_bridge.Base.{
  ℕ, suc, ◌%◌, ◌≡◌, refl, sym, ap, ◌∙◌, Bool, true, false, List, [], ◌∷◌, map, arith, if◌then◌else◌,
  length, keep,
}
use agy_identity_bridge.Int64.{Int64, add64, word}
use agy_identity_bridge.Usage.{UsageRecord}
use agy_identity_bridge.Usage.Summary.{UsageCounts, no_counts}

-- The sum of two counts, field by field.
abbrev pub add_counts : UsageCounts → UsageCounts → UsageCounts
add_counts c d = record {
  requests = add64 c.requests d.requests;
  prompt_tokens = add64 c.prompt_tokens d.prompt_tokens;
  completion_tokens = add64 c.completion_tokens d.completion_tokens;
  total_tokens = add64 c.total_tokens d.total_tokens;
  cached_tokens = add64 c.cached_tokens d.cached_tokens;
  cache_hits = add64 c.cache_hits d.cache_hits;
}

pub add64_assoc : (a b c : Int64) → add64 (add64 a b) c ≡ add64 a (add64 b c)
unfolding add64
add64_assoc a b c = omega arith

pub add64_swap : (a b c : Int64) → add64 a (add64 b c) ≡ add64 b (add64 a c)
unfolding add64
add64_swap a b c = omega arith

pub counts-eq :
    (c d : UsageCounts)
    → c.requests ≡ d.requests
    → c.prompt_tokens ≡ d.prompt_tokens
    → c.completion_tokens ≡ d.completion_tokens
    → c.total_tokens ≡ d.total_tokens
    → c.cached_tokens ≡ d.cached_tokens
    → c.cache_hits ≡ d.cache_hits
    → c ≡ d
counts-eq c d e f g h k l =
    ap (λ x. record c { requests = x }) e
    ∙ ap (λ x. record c { requests = d.requests; prompt_tokens = x }) f
    ∙ ap
        (λ x. record d {
          completion_tokens = x;
          total_tokens = c.total_tokens;
          cached_tokens = c.cached_tokens;
          cache_hits = c.cache_hits;
        })
        g
    ∙ ap
        (λ x. record d {
          total_tokens = x;
          cached_tokens = c.cached_tokens;
          cache_hits = c.cache_hits;
        })
        h
    ∙ ap (λ x. record d { cached_tokens = x; cache_hits = c.cache_hits }) k
    ∙ ap (λ x. record d { cache_hits = x }) l

-- A sum of machine integers, which wraps around.
unfoldable pub sum64 : List ℕ → Int64
sum64 [] = 0
sum64 (n ∷ ns) = add64 n (sum64 ns)

-- What the records themselves say: how many there are, the sum of each of their counts, and how
-- many of them are hits.
abbrev pub counts_of : List UsageRecord → UsageCounts
counts_of records = record {
  requests = length records % word;
  prompt_tokens = sum64 (map (λ r. r.totals.prompt_tokens) records);
  completion_tokens = sum64 (map (λ r. r.totals.completion_tokens) records);
  total_tokens = sum64 (map (λ r. r.totals.total_tokens) records);
  cached_tokens = sum64 (map (λ r. r.totals.cached_tokens) records);
  cache_hits = length (keep (λ r. r.totals.cache_hit) records) % word;
}

-- The counts of one record.
abbrev pub one : UsageRecord → UsageCounts
one r = record {
  requests = 1;
  prompt_tokens = r.totals.prompt_tokens;
  completion_tokens = r.totals.completion_tokens;
  total_tokens = r.totals.total_tokens;
  cached_tokens = r.totals.cached_tokens;
  cache_hits = if r.totals.cache_hit then 1 else 0;
}

pub swap-counts :
    (c d e : UsageCounts) → add_counts c (add_counts d e) ≡ add_counts d (add_counts c e)
swap-counts c d e =
    counts-eq (add_counts c (add_counts d e)) (add_counts d (add_counts c e))
      (add64_swap c.requests d.requests e.requests)
      (add64_swap c.prompt_tokens d.prompt_tokens e.prompt_tokens)
      (add64_swap c.completion_tokens d.completion_tokens e.completion_tokens)
      (add64_swap c.total_tokens d.total_tokens e.total_tokens)
      (add64_swap c.cached_tokens d.cached_tokens e.cached_tokens)
      (add64_swap c.cache_hits d.cache_hits e.cache_hits)

pub add_counts_assoc :
    (c d e : UsageCounts) → add_counts (add_counts c d) e ≡ add_counts c (add_counts d e)
add_counts_assoc c d e =
    counts-eq (add_counts (add_counts c d) e) (add_counts c (add_counts d e)) (add64_assoc _ _ _)
      (add64_assoc _ _ _) (add64_assoc _ _ _) (add64_assoc _ _ _) (add64_assoc _ _ _)
      (add64_assoc _ _ _)

pub add64-suc : (n : ℕ) → add64 1 (n % word) ≡ suc n % word
unfolding add64
add64-suc n = omega arith

pub hits-cons :
    (hit : Bool) (n : ℕ)
    → add64 (if hit then 1 else 0) (n % word) ≡ (if hit then suc n else n) % word
unfolding add64
hits-cons true n = omega arith
hits-cons false n = omega arith

pub length-if {ℓ} :
    {A : Type ℓ} (hit : Bool) (x : A) (xs : List A)
    → length (if hit then x ∷ xs else xs) ≡ (if hit then suc (length xs) else length xs)
length-if true x xs = refl
length-if false x xs = refl

pub counts_of-cons :
    (r : UsageRecord) (records : List UsageRecord)
    → add_counts (one r) (counts_of records) ≡ counts_of (r ∷ records)
unfolding sum64
counts_of-cons r records =
    counts-eq (add_counts (one r) (counts_of records)) (counts_of (r ∷ records))
      (add64-suc (length records)) refl refl refl refl
      (hits-cons r.totals.cache_hit (length (keep (λ q. q.totals.cache_hit) records))
        ∙ ap (λ n. n % word)
            (sym (length-if r.totals.cache_hit r (keep (λ q. q.totals.cache_hit) records))))

pub add64_reduced : (a b : Int64) → add64 (add64 a b) 0 ≡ add64 a b
unfolding add64
add64_reduced a b = omega arith

pub add64_mod : (n : ℕ) → add64 (n % word) 0 ≡ n % word
unfolding add64
add64_mod n = omega arith

pub sum64-reduced : (ns : List ℕ) → add64 (sum64 ns) 0 ≡ sum64 ns
unfolding sum64
sum64-reduced [] = unfold add64 in refl
sum64-reduced (n ∷ ns) = add64_reduced n (sum64 ns)

pub counts_of-reduced :
    (records : List UsageRecord) → add_counts (counts_of records) no_counts ≡ counts_of records
counts_of-reduced records =
    counts-eq (add_counts (counts_of records) no_counts) (counts_of records) (add64_mod _)
      (sum64-reduced _) (sum64-reduced _) (sum64-reduced _) (sum64-reduced _) (add64_mod _)

pub add64_zero_add : (a b : Int64) → add64 0 (add64 a b) ≡ add64 a b
unfolding add64
add64_zero_add a b = omega arith

unfoldable pub IsReduced : UsageCounts → Type 0
IsReduced c = add_counts no_counts c ≡ c

pub add_counts-IsReduced : (c d : UsageCounts) → IsReduced (add_counts c d)
unfolding IsReduced
add_counts-IsReduced c d =
    counts-eq (add_counts no_counts (add_counts c d)) (add_counts c d) (add64_zero_add _ _)
      (add64_zero_add _ _) (add64_zero_add _ _) (add64_zero_add _ _) (add64_zero_add _ _)
      (add64_zero_add _ _)

pub no_counts-IsReduced : IsReduced no_counts
unfolding IsReduced add64
no_counts-IsReduced = refl

-- One record in front of the others.
pub add_counts-cons :
    (r : UsageRecord) (records : List UsageRecord) (c : UsageCounts)
    → add_counts (counts_of records) (add_counts (one r) c) ≡ add_counts (counts_of (r ∷ records)) c
add_counts-cons r records c =
    swap-counts (counts_of records) (one r) c
    ∙ sym (add_counts_assoc (one r) (counts_of records) c)
    ∙ ap (λ d. add_counts d c) (counts_of-cons r records)
