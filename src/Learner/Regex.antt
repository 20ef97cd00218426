-- ===== src/Learner/Regex.antt =====
-- The regular expression that `compute` of src/learner/LearnerEngine.cc makes of its tokens.
use mathlib.Core.List.{append_assoc, append-nil}
use aiengine_rewritten_clean.Prelude.{
  ℕ, zero, suc, ◌+◌, ◌*◌, ◌/◌, ◌%◌, ◌≤◌, ◌<◌, ◌≡◌, refl, sym, ap, ◌∙◌, false, Option, none, some,
  List, [], ◌∷◌, ◌++◌, arith, ltb, ◌==◌, if◌then◌else◌, Bytes, length, drop, lt→ltb,
}
use aiengine_rewritten_clean.Learner.{
  Table, LearnerEngine, token_text, concat_texts, run_of, compress, compute, tokens, used_places,
}
use aiengine_rewritten_clean.Learner.Ascii.{digit, PrintsHex, AllBytes}

-- A run of `.?` of some length.
abbrev pub flush : (ℕ → Bytes) → ℕ → Bytes
flush decimal zero = []
flush decimal (suc zero) = b'.' ∷ b'?' ∷ []
flush decimal (suc (suc k)) = b'.' ∷ b'{' ∷ decimal (suc (suc k)) ++ b'}' ∷ []

-- The tokens' text, each run of `.?` as one. `k` of them have been read and not yet written.
unfoldable pub render : (ℕ → Bytes) → (ℕ → Bytes) → ℕ → List (Option ℕ) → Bytes
render hex decimal k [] = flush decimal k
render hex decimal k (none ∷ ts) = render hex decimal (k + 1) ts
render hex decimal k (some v ∷ ts) =
    flush decimal k ++ (token_text hex (some v) ++ render hex decimal 0 ts)

-- The `.?` at the head of the tokens, and the tokens behind them.
abbrev nones : List (Option ℕ) → ℕ
nones [] = 0
nones (none ∷ ts) = suc (nones ts)
nones (some v ∷ ts) = 0

abbrev behind : List (Option ℕ) → List (Option ℕ)
behind [] = []
behind (none ∷ ts) = behind ts
behind (some v ∷ ts) = some v ∷ ts

run_of-tokens :
    (hex : ℕ → Bytes) (ts : List (Option ℕ)) → run_of (concat_texts (token_text hex) ts) ≡ nones ts
unfolding run_of
run_of-tokens hex [] = refl
run_of-tokens hex (none ∷ ts) = ap suc (run_of-tokens hex ts)
run_of-tokens hex (some v ∷ ts) = refl

drop-tokens :
    (hex : ℕ → Bytes) (ts : List (Option ℕ))
    → drop (2 * nones ts) (concat_texts (token_text hex) ts)
      ≡ concat_texts (token_text hex) (behind ts)
drop-tokens hex [] = refl
drop-tokens hex (none ∷ ts) =
    let two : 2 * suc (nones ts) ≡ suc (suc (2 * nones ts)) = omega arith in
    ap (λ n. drop n (concat_texts (token_text hex) (none ∷ ts))) two ∙ drop-tokens hex ts
drop-tokens hex (some v ∷ ts) = refl

length-behind :
    (hex : ℕ → Bytes) (ts : List (Option ℕ))
    → length (concat_texts (token_text hex) (behind ts)) ≤ length (concat_texts (token_text hex) ts)
length-behind hex [] = omega arith
length-behind hex (none ∷ ts) = omega (arith, length-behind hex ts)
length-behind hex (some v ∷ ts) = omega arith

AllBytes-behind : (ts : List (Option ℕ)) → AllBytes ts → AllBytes (behind ts)
AllBytes-behind [] h = tt
AllBytes-behind (none ∷ ts) h = AllBytes-behind ts h
AllBytes-behind (some v ∷ ts) h = h

flush_zero : (decimal : ℕ → Bytes) (k : ℕ) → flush decimal (k + 0) ≡ flush decimal k
flush_zero decimal k = let same : k + 0 ≡ k = omega arith in ap (flush decimal) same

shift : (k n : ℕ) → k + 1 + n ≡ k + suc n
shift k n = omega arith

render-behind :
    (hex decimal : ℕ → Bytes) (k : ℕ) (ts : List (Option ℕ))
    → render hex decimal k ts ≡ flush decimal (k + nones ts) ++ render hex decimal 0 (behind ts)
unfolding render
render-behind hex decimal k [] = sym (append-nil (flush decimal (k + 0)) ∙ flush_zero decimal k)
render-behind hex decimal k (none ∷ ts) =
    render-behind hex decimal (k + 1) ts
    ∙ ap (λ n. flush decimal n ++ render hex decimal 0 (behind ts)) (shift k (nones ts))
render-behind hex decimal k (some v ∷ ts) =
    ap (λ x. x ++ (token_text hex (some v) ++ render hex decimal 0 ts)) (sym (flush_zero decimal k))

compress-plain :
    (decimal : ℕ → Bytes) (fuel a : ℕ) (text : Bytes)
    → (a == b'.') ≡ false
    → compress decimal (suc fuel) (a ∷ text) ≡ a ∷ compress decimal fuel text
unfolding compress
compress-plain decimal fuel a [] h = refl
compress-plain decimal fuel a (b ∷ text) h = rw h refl

run-flush :
    (decimal : ℕ → Bytes) (k : ℕ) (rest : Bytes)
    → (if ltb 1 (suc k) then b'.' ∷ b'{' ∷ decimal (suc k) ++ b'}' ∷ rest else b'.' ∷ b'?' ∷ rest)
      ≡ flush decimal (suc k) ++ rest
run-flush decimal zero rest = refl
run-flush decimal (suc k) rest =
    rw (lt→ltb 1 (suc (suc k)) (omega arith))
      (ap (λ x. b'.' ∷ b'{' ∷ x) (sym (append_assoc (decimal (suc (suc k))) (b'}' ∷ []) rest)))

compress-run :
    (hex decimal : ℕ → Bytes) (fuel : ℕ) (ts : List (Option ℕ))
    → compress decimal (suc fuel) (concat_texts (token_text hex) (none ∷ ts))
      ≡ flush decimal (suc (nones ts))
        ++ compress decimal fuel (concat_texts (token_text hex) (behind ts))
unfolding compress
compress-run hex decimal fuel ts = rw (run_of-tokens hex ts) (
    rw (drop-tokens hex (none ∷ ts)) (
      run-flush decimal (nones ts)
        (compress decimal fuel (concat_texts (token_text hex) (behind ts)))))

digit_plain : (d : ℕ) → d < 16 → (digit d == b'.') ≡ false
digit_plain d h = ground arith

compress-value :
    (hex decimal : ℕ → Bytes) (fuel v : ℕ) (ts : List (Option ℕ))
    → PrintsHex hex
    → v < 256
    → compress decimal (suc (suc (suc (suc fuel)))) (concat_texts (token_text hex) (some v ∷ ts))
      ≡ token_text hex (some v) ++ compress decimal fuel (concat_texts (token_text hex) ts)
compress-value hex decimal fuel v ts p h =
    let text = concat_texts (token_text hex) ts in
    rw (p v h) (
      compress-plain decimal (suc (suc (suc fuel))) 92 _ refl
      ∙ ap (◌∷◌ 92) (
          compress-plain decimal (suc (suc fuel)) b'x' _ refl
          ∙ ap (◌∷◌ b'x') (
              compress-plain decimal (suc fuel) (digit (v / 16)) _
                (digit_plain (v / 16) (omega arith))
              ∙ ap (◌∷◌ (digit (v / 16))) (
                  compress-plain decimal fuel (digit (v % 16)) text
                    (digit_plain (v % 16) (omega arith))))))

one_more : (n : ℕ) → 1 + n ≡ suc n
one_more n = omega arith

length-value :
    (hex : ℕ → Bytes) (v : ℕ) (ts : List (Option ℕ))
    → PrintsHex hex
    → v < 256
    → length (concat_texts (token_text hex) (some v ∷ ts))
      ≡ 4 + length (concat_texts (token_text hex) ts)
length-value hex v ts p h = rw (p v h) (omega arith)

compress-render :
    (hex decimal : ℕ → Bytes) (fuel : ℕ) (ts : List (Option ℕ))
    → PrintsHex hex
    → AllBytes ts
    → length (concat_texts (token_text hex) ts) ≤ fuel
    → compress decimal fuel (concat_texts (token_text hex) ts) ≡ render hex decimal 0 ts
unfolding compress render
compress-render hex decimal zero [] p b h = refl
compress-render hex decimal (suc fuel) [] p b h = refl
compress-render hex decimal zero (none ∷ ts) p b h = absurd (omega (arith, h))
compress-render hex decimal (suc fuel) (none ∷ ts) p b h =
    compress-run hex decimal fuel ts
    ∙ ap (λ x. flush decimal (suc (nones ts)) ++ x)
        (compress-render hex decimal fuel (behind ts) p (AllBytes-behind ts b)
          (omega (arith, h, length-behind hex ts)))
    ∙ sym (
        render-behind hex decimal 1 ts
        ∙ ap (λ n. flush decimal n ++ render hex decimal 0 (behind ts)) (one_more (nones ts)))
compress-render hex decimal (suc (suc (suc (suc fuel)))) (some v ∷ ts) p b h =
    compress-value hex decimal fuel v ts p b.0
    ∙ ap (λ x. token_text hex (some v) ++ x)
        (compress-render hex decimal fuel ts p b.1 (omega (arith, h, length-value hex v ts p b.0)))
compress-render hex decimal _ (some v ∷ ts) p b h =
    absurd (omega (arith, h, length-value hex v ts p b.0))

-- The regular expression is `^` and the text of the tokens, `\xhh` for a value, where each run of
-- two or more places with no value is one `.{n}` and a single one `.?`. The tables' values are
-- bytes.
pub compute-regex :
    (iterate : ℕ → Table → Table) (hex decimal : ℕ → Bytes) (e : LearnerEngine)
    → PrintsHex hex
    → AllBytes (tokens iterate e 0 (used_places e))
    → (compute iterate hex decimal e).regex_expression
      ≡ b'^' ∷ render hex decimal 0 (tokens iterate e 0 (used_places e))
unfolding compute
compute-regex iterate hex decimal e p b =
    compress-plain decimal _ b'^' _ refl
    ∙ ap (◌∷◌ b'^')
        (compress-render hex decimal _ (tokens iterate e 0 (used_places e)) p b (omega arith))
