-- ===== src/Spi/Response.antt =====
-- What `sendCommand` takes for the response of the card.
use testsystem.Prelude.{
  ℕ, zero, suc, ◌+◌, ◌<◌, ◌≡◌, refl, ap, ◌∙◌, true, false, Option, none, some, List, [], ◌∷◌, arith,
  ◌==◌, if◌then◌else◌, Bool-cases, inl, inr, get_elem?, take, drop,
}
use testsystem.Prelude.Int.{ℤ, is_negative}
use testsystem.Spi.{command_words, responses, send_command, found}

-- A received word that is not idle.
abbrev pub answer : Option ℕ → Option ℕ
answer none = none
answer (some word) = if word == 0xff then none else some word

-- The word that was printed for an index.
abbrev pub printed : ℕ → List (ℕ × ℕ) → Option ℕ
printed i [] = none
printed i ((j, word) ∷ lines) = let rest = printed i lines in if i == j then some word else rest

printed-early : (words : List ℕ) (n i : ℕ) → n < i → printed n (responses i words) ≡ none
unfolding responses
printed-early [] n i h = refl
printed-early (word ∷ words) n i h =
    let ih = printed-early words n (suc i) (omega arith) in
    let other : (n == i) ≡ false = ground arith in
    elim (Bool-cases (word == 0xff)) [
      | inl e ↦ simp (e, ih) refl
      | inr e ↦ simp (e, other, ih) refl
    ]

printed-responses :
    (words : List ℕ) (n i k : ℕ)
    → n ≡ i + k
    → printed n (responses i words) ≡ answer (get_elem? words k)
unfolding responses
printed-responses [] n i k h = refl
printed-responses (word ∷ words) n i zero h =
    let later = printed-early words n (suc i) (omega arith) in
    let same : (n == i) ≡ true = ground arith in
    elim (Bool-cases (word == 0xff)) [ inl e ↦ simp (e, later) refl | inr e ↦ simp (e, same) refl ]
printed-responses (word ∷ words) n i (suc k) h =
    let ih = printed-responses words n (suc i) k (omega arith) in
    let other : (n == i) ≡ false = ground arith in
    elim (Bool-cases (word == 0xff)) [
      | inl e ↦ simp (e, ih) refl
      | inr e ↦ simp (e, other, ih) refl
    ]

get_elem?-drop : (n k : ℕ) (words : List ℕ) → get_elem? (drop n words) k ≡ get_elem? words (n + k)
get_elem?-drop zero k words = ap (get_elem? words) (omega arith)
get_elem?-drop (suc n) k [] = refl
get_elem?-drop (suc n) k (word ∷ words) =
    let e : suc (n + k) ≡ suc n + k = omega arith in
    get_elem?-drop n k words ∙ ap (get_elem? (word ∷ words)) e

-- A list with an entry is not empty.
found-some :
    (lines : List (ℕ × ℕ)) (n word : ℕ) → printed n lines ≡ some word → found lines ≡ some lines
found-some [] n word h = absurd (ground (arith, h))
found-some (line ∷ lines) n word h = refl

module _ (cmd_macro : ℕ → ℕ) (transfer : List ℕ → ℤ × List ℕ) (cmd arg : ℕ)
    (sent : is_negative (transfer (command_words cmd_macro arg)).0 ≡ false) where
  -- What `recv` holds behind the transfer.
  abbrev recv : List ℕ
  recv = take 24 (transfer (command_words cmd_macro arg)).1

  -- Where the transfer succeeds and, from index 6 on, a received word differs from 0xff,
  -- `sendCommand` passes its assertions and prints, for each index from 6 on, the word received
  -- there unless it is 0xff.
  pub send_command-response :
      (k word : ℕ)
      → answer (get_elem? recv (6 + k)) ≡ some word
      → (lines : List (ℕ × ℕ)) × (send_command cmd_macro transfer cmd arg ≡ some lines)
        × ((j : ℕ) → printed (6 + j) lines ≡ answer (get_elem? recv (6 + j)))
  unfolding send_command
  send_command-response k word h =
      let lines = responses 6 (drop 6 recv) in
      let entry = λ (j : ℕ).
        printed-responses (drop 6 recv) (6 + j) 6 j refl ∙ ap answer (get_elem?-drop 6 j recv) in
      (lines, simp sent (found-some lines (6 + k) word (entry k ∙ h)), entry)
