-- ===== src/Sniffer/Chunks.antt =====
-- What `feed` (unify_llm/monitor.py) counts does not depend on where the stream is cut into chunks.
use mathlib.Core.Path.{subst}
use Prim.Native.Char.{Char, code}
use unify_llm.Prelude.{
  ◌+◌, ◌≤◌, ◌≡◌, refl, ap, sym, ◌∙◌, String, Bool, true, false, Option, List, [], ◌∷◌, ◌++◌, ◌==◌,
  arith,
}
use unify_llm.Prelude.Text.{count_chars, ◌+str◌, str_assoc, str_nil}
use unify_llm.Sniffer.{Chunk, Usage}
use unify_llm.Sniffer.Feed.{
  Sniffer, before_lines, split_lines, capped, handle_line, handle_lines, feed, feed_all,
}

-- The lines of two texts that follow each other
abbrev after_lines : List String × String → String → List String × String
after_lines (ls, rest) t = let (more, end) = split_lines (rest +str t) in (ls ++ more, end)

count-append : (s t : String) → count_chars (s +str t) ≡ count_chars s + count_chars t
count-append String.[] t = omega arith
count-append (String.◌∷◌ c s) t = omega (arith, count-append s t)

before_lines-count :
    (b : Bool) (c : Char) (r : List String × String)
    → count_chars (before_lines b c r).1 ≤ count_chars r.1 + 1
before_lines-count true c (ls, rest) = omega arith
before_lines-count false c ([], rest) = omega arith
before_lines-count false c (l ∷ ls, rest) = omega arith

-- The rest is no longer than the text.
split_lines-count : (s : String) → count_chars (split_lines s).1 ≤ count_chars s
unfolding split_lines
split_lines-count String.[] = omega arith
split_lines-count (String.◌∷◌ c s) =
    omega (arith, split_lines-count s, before_lines-count (code c == 10) c (split_lines s))

before_lines-after :
    (b : Bool) (c : Char) (r : List String × String) (t : String)
    → b ≡ (code c == 10)
    → after_lines (before_lines b c r) t ≡ before_lines b c (after_lines r t)
unfolding split_lines
before_lines-after true c (ls, rest) t e = refl
before_lines-after false c ([], rest) t e =
    ap (λ b. before_lines b c (split_lines (rest +str t))) (sym e)
before_lines-after false c (l ∷ ls, rest) t e = refl

split_lines-append : (s t : String) → split_lines (s +str t) ≡ after_lines (split_lines s) t
unfolding split_lines
split_lines-append String.[] t = refl
split_lines-append (String.◌∷◌ c s) t =
    ap (before_lines (code c == 10) c) (split_lines-append s t)
    ∙ sym (before_lines-after (code c == 10) c (split_lines s) t refl)

-- A text within the bound stays as it is.
capped_lem : (s : String) → count_chars s ≤ 512000 → capped s ≡ s
unfolding capped
capped_lem s h = ground (arith, h)

-- The whole of the chunks
abbrev pub join : List String → String
join [] = ""
join (t ∷ ts) = t +str join ts

module _ (loads : String → Option Chunk) where
  handle_lines-append :
      (ls more : List String) (u : Usage)
      → handle_lines loads (ls ++ more) u ≡ handle_lines loads more (handle_lines loads ls u)
  unfolding handle_lines
  handle_lines-append [] more u = refl
  handle_lines-append (l ∷ ls) more u = handle_lines-append ls more (handle_line loads l u)

  -- What the lines and the rest of a text make of the counts
  abbrev taken : List String × String → Usage → Sniffer
  taken r u = record { usage = handle_lines loads r.0 u; buf = r.1 }

  feed_lem :
      (t : String) (st : Sniffer)
      → count_chars (st.buf +str t) ≤ 512000
      → feed loads t st ≡ taken (split_lines (st.buf +str t)) st.usage
  unfolding feed
  feed_lem t st h = ap (λ b. taken (split_lines b) st.usage) (capped_lem (st.buf +str t) h)

  taken-after_lines :
      (r : List String × String) (t : String) (u : Usage)
      → taken (split_lines (r.1 +str t)) (handle_lines loads r.0 u) ≡ taken (after_lines r t) u
  taken-after_lines r t u =
      let (more, end) = split_lines (r.1 +str t) in
      ap (λ v. record { usage = v; buf = (split_lines (r.1 +str t)).1 })
        (sym (handle_lines-append r.0 (split_lines (r.1 +str t)).0 u))

  feed-append :
      (s t : String) (st : Sniffer)
      → count_chars (st.buf +str (s +str t)) ≤ 512000
      → feed loads t (feed loads s st) ≡ feed loads (s +str t) st
  feed-append s t st h =
      let r = split_lines (st.buf +str s) in
      let whole = count-append st.buf (s +str t) in
      let parts = count-append s t in
      let before = count-append st.buf s in
      ap (feed loads t) (feed_lem s st (omega (arith, h, whole, parts, before)))
      ∙ feed_lem t (taken r st.usage) (
          omega
            (arith, h, whole, parts, before, count-append r.1 t, split_lines-count (st.buf +str s)))
      ∙ taken-after_lines r t st.usage
      ∙ ap (λ x. taken x st.usage) (sym (split_lines-append (st.buf +str s) t))
      ∙ ap (λ b. taken (split_lines b) st.usage) (str_assoc st.buf s t)
      ∙ sym (feed_lem (s +str t) st h)

  feed_all-eq-feed :
      (t : String) (ts : List String) (st : Sniffer)
      → count_chars (st.buf +str (t +str join ts)) ≤ 512000
      → feed_all loads (t ∷ ts) st ≡ feed loads (t +str join ts) st
  unfolding feed_all
  feed_all-eq-feed t [] st h = ap (λ x. feed loads x st) (sym (str_nil t))
  feed_all-eq-feed t (u ∷ ts) st h =
      let long : count_chars (st.buf +str ((t +str u) +str join ts)) ≤ 512000 =
        subst (λ x. count_chars (st.buf +str x) ≤ 512000) (sym (str_assoc t u (join ts))) h in
      ap (feed_all loads ts) (
        feed-append t u st (
          omega (
            arith,
            long,
            count-append st.buf ((t +str u) +str join ts),
            count-append (t +str u) (join ts),
            count-append st.buf (t +str u),
          )))
      ∙ feed_all-eq-feed (t +str u) ts st long
      ∙ ap (λ x. feed loads x st) (str_assoc t u (join ts))

  -- Two ways to cut the same text into chunks give the same counts and the same buffer, as long as what
  -- is buffered and the text have no more than 512000 characters together.
  pub cut_anywhere :
      (t u : String) (ts us : List String) (st : Sniffer)
      → t +str join ts ≡ u +str join us
      → count_chars (st.buf +str (t +str join ts)) ≤ 512000
      → feed_all loads (t ∷ ts) st ≡ feed_all loads (u ∷ us) st
  cut_anywhere t u ts us st e h =
      feed_all-eq-feed t ts st h
      ∙ ap (λ x. feed loads x st) e
      ∙ sym (feed_all-eq-feed u us st (subst (λ x. count_chars (st.buf +str x) ≤ 512000) e h))
