-- ===== src/Sniffer/Peak.antt =====
-- What `StreamUsageSniffer` (unify_llm/monitor.py) reports of a stream: the largest counts in it.
use unify_llm.Prelude.{ℕ, max, ◌≡◌, refl, ◌∙◌, ap, Option, none, some, List, [], ◌∷◌, arith}
use unify_llm.Sniffer.{
  UsageDict, Chunk, message_start, message_delta, other_event, completion_chunk, Usage, usage_pair,
  raised_to, raise_if_any, raise_prompt, raise_completion, absorb_choices, absorb_usage, absorb,
  absorb_all,
}

abbrev number_of : Option ℕ → ℕ
number_of none = 0
number_of (some n) = n

-- The counts in a dict by its keys `prompt_tokens`, `completion_tokens`, `input_tokens` and
-- `output_tokens`: the last two count where the first two are missing.
abbrev counts : Option ℕ → Option ℕ → Option ℕ → Option ℕ → ℕ × ℕ
counts none none i o = (number_of i, number_of o)
counts (some p) c i o = (p, number_of c)
counts none (some c) i o = (0, c)

abbrev counts_in : UsageDict → ℕ × ℕ
counts_in u = counts u.prompt_tokens u.completion_tokens u.input_tokens u.output_tokens

usage_pair-counts :
    (p c i o : Option ℕ)
    → usage_pair
        (record { prompt_tokens = p; completion_tokens = c; input_tokens = i; output_tokens = o })
      ≡ counts p c i o
unfolding usage_pair
usage_pair-counts none none none none = refl
usage_pair-counts none none none (some o) = refl
usage_pair-counts none none (some i) none = refl
usage_pair-counts none none (some i) (some o) = refl
usage_pair-counts none (some c) i o = refl
usage_pair-counts (some p) none i o = refl
usage_pair-counts (some p) (some c) i o = refl

usage_pair-counts_in : (u : UsageDict) → usage_pair u ≡ counts_in u
usage_pair-counts_in u =
    usage_pair-counts u.prompt_tokens u.completion_tokens u.input_tokens u.output_tokens

abbrev larger : ℕ × ℕ → ℕ × ℕ → ℕ × ℕ
larger (a, b) (c, d) = (max a c, max b d)

abbrev pair_of : Option UsageDict → ℕ × ℕ
pair_of none = (0, 0)
pair_of (some u) = counts_in u

abbrev largest_choice : List UsageDict → ℕ × ℕ
largest_choice [] = (0, 0)
largest_choice (u ∷ us) = larger (counts_in u) (largest_choice us)

-- The counts that one object reports. A `message_delta` also reports its `input_tokens` and
-- `output_tokens` where they stand beside the other two keys.
abbrev pub reported : Chunk → ℕ × ℕ
reported (message_start u) = counts_in u
reported (message_delta u) =
    larger (counts_in u) (number_of u.input_tokens, number_of u.output_tokens)
reported other_event = (0, 0)
reported (completion_chunk u us) = larger (pair_of u) (largest_choice us)

-- The largest counts of a stream.
abbrev pub peak : List Chunk → ℕ × ℕ
peak [] = (0, 0)
peak (k ∷ ks) = larger (reported k) (peak ks)

raise_if_any-raised_to : (p : ℕ × ℕ) (s : Usage) → raise_if_any p s ≡ raised_to p s
unfolding raise_if_any
raise_if_any-raised_to (pt, ct) s = ground arith

raise_if_any-counts_in :
    (u : UsageDict) (s : Usage) → raise_if_any (usage_pair u) s ≡ raised_to (counts_in u) s
raise_if_any-counts_in u s =
    raise_if_any-raised_to (usage_pair u) s ∙ ap (λ p. raised_to p s) (usage_pair-counts_in u)

raised_to-larger :
    (p q : ℕ × ℕ) (s : Usage) → raised_to q (raised_to p s) ≡ raised_to (larger p q) s
raised_to-larger (a, b) (c, d) s = ground arith

raised_to-zero : (s : Usage) → s ≡ raised_to (0, 0) s
raised_to-zero s = ground arith

absorb_choices-largest :
    (us : List UsageDict) (s : Usage) → absorb_choices us s ≡ raised_to (largest_choice us) s
unfolding absorb_choices
absorb_choices-largest [] s = raised_to-zero s
absorb_choices-largest (u ∷ us) s =
    ap (absorb_choices us) (raise_if_any-counts_in u s)
    ∙ absorb_choices-largest us (raised_to (counts_in u) s)
    ∙ raised_to-larger (counts_in u) (largest_choice us) s

absorb_usage-pair_of :
    (u : Option UsageDict) (s : Usage) → absorb_usage u s ≡ raised_to (pair_of u) s
absorb_usage-pair_of none s = raised_to-zero s
absorb_usage-pair_of (some u) s = raise_if_any-counts_in u s

delta_raises :
    (i o : Option ℕ) (p : ℕ × ℕ) (s : Usage)
    → raised_to p (raise_prompt i (raise_completion o s))
      ≡ raised_to (larger p (number_of i, number_of o)) s
delta_raises none none (a, b) s = ground arith
delta_raises none (some n) (a, b) s = ground arith
delta_raises (some m) none (a, b) s = ground arith
delta_raises (some m) (some n) (a, b) s = ground arith

absorb-reported : (k : Chunk) (s : Usage) → absorb k s ≡ raised_to (reported k) s
unfolding absorb
absorb-reported (message_start u) s = ap (λ p. raised_to p s) (usage_pair-counts_in u)
absorb-reported (message_delta u) s =
    raise_if_any-counts_in u (raise_prompt u.input_tokens (raise_completion u.output_tokens s))
    ∙ delta_raises u.input_tokens u.output_tokens (counts_in u) s
absorb-reported other_event s = raised_to-zero s
absorb-reported (completion_chunk u us) s =
    ap (absorb_choices us) (absorb_usage-pair_of u s)
    ∙ absorb_choices-largest us (raised_to (pair_of u) s)
    ∙ raised_to-larger (pair_of u) (largest_choice us) s

-- After a stream, from any counts, each count is the larger of what it was and of the largest one that
-- an object of the stream reports. A usage dict reports its `prompt_tokens` and `completion_tokens`, and
-- only if it has neither key its `input_tokens` and `output_tokens`; in a `message_delta` all four count.
pub absorb_all-peak : (ks : List Chunk) (s : Usage) → absorb_all ks s ≡ raised_to (peak ks) s
unfolding absorb_all
absorb_all-peak [] s = raised_to-zero s
absorb_all-peak (k ∷ ks) s =
    ap (absorb_all ks) (absorb-reported k s)
    ∙ absorb_all-peak ks (raised_to (reported k) s)
    ∙ raised_to-larger (reported k) (peak ks) s
