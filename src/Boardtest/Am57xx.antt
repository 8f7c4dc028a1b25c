-- ===== src/Boardtest/Am57xx.antt =====
-- What `boardtest_init` makes of the pins of the AM57xx.
use testsystem.Prelude.{◌≡◌, refl, sym, ◌∙◌, subst, List, [], ◌∷◌, ◌++◌, All, take, length}
use testsystem.Prelude.Task.{Ensures, Ensures-and_then}
use testsystem.Boardtest.{
  output_pull_up, falling, Gpio, init_pins, am57xx_init_buttons, am57xx_boardtest_init,
}
use testsystem.Boardtest.Works.{Call, init, callback, enable, toggle, Works}

-- A call that makes no input and enables no interrupt.
abbrev pub IsDeaf : {P : Type 0} → Call P → Type 0
IsDeaf (init id mode) = mode ≡ output_pull_up
IsDeaf (callback id edge) = Unit
IsDeaf (enable id) = ⊥
IsDeaf (toggle id) = Unit

All-note :
    {P : Type 0} (calls : List (Call P)) (c : Call P)
    → All IsDeaf calls
    → IsDeaf c
    → All IsDeaf (calls ++ (c ∷ []))
All-note [] c h d = (d, tt)
All-note (x ∷ xs) c h d = (h.0, All-note xs c h.1 d)

module _ {W P : Type 0} (gpio : Gpio W P) (works : Works gpio) where
  open works use {log, starts, inits, callbacks, creates}

  after :
      (w w' : W) (c : Call P)
      → log w' ≡ log w ++ (c ∷ [])
      → All IsDeaf (log w)
      → IsDeaf c
      → All IsDeaf (log w')
  after w w' c e h d = subst (All IsDeaf) (sym e) (All-note (log w) c h d)

  pins-IsDeaf :
      (ids : List P) (w : W)
      → All IsDeaf (log w)
      → Ensures (init_pins gpio ids w) (λ _ w'. All IsDeaf (log w'))
  unfolding init_pins
  pins-IsDeaf [] w h = ([], w, refl, h)
  pins-IsDeaf (id ∷ ids) w h =
      let Post = λ (pins : List P) (w' : W). All IsDeaf (log w') in
      Ensures-and_then _ _ Post (inits id output_pull_up w) λ pin w1 e1.
        Ensures-and_then _ _ Post (pins-IsDeaf ids w1 (after w w1 _ e1.1 h refl))
          λ pins w2 h2. (pin ∷ pins, w2, refl, h2)

  buttons-IsDeaf :
      (ids : List P) (w : W)
      → All IsDeaf (log w)
      → Ensures (am57xx_init_buttons gpio ids w) (λ _ w'. All IsDeaf (log w'))
  unfolding am57xx_init_buttons
  buttons-IsDeaf [] w h = ([], w, refl, h)
  buttons-IsDeaf (id ∷ ids) w h =
      let Post = λ (buttons : List P) (w' : W). All IsDeaf (log w') in
      Ensures-and_then _ _ Post (inits id output_pull_up w) λ b w1 e1.
        Ensures-and_then _ _ Post (callbacks b falling w1) λ _ w2 e2.
          Ensures-and_then _ _ Post
            (buttons-IsDeaf ids w2 (after w1 w2 _ e2 (after w w1 _ e1.1 h refl) tt))
            λ bs w3 h3. (b ∷ bs, w3, refl, h3)

  -- On a board whose pins work, `boardtest_init` of the AM57xx fails no assertion, and whatever its
  -- tables hold, it makes no pin an input and enables no interrupt.
  pub boardtest_init-IsDeaf :
      (pin_ids button_ids : List P) (w : W)
      → log w ≡ []
      → Ensures (am57xx_boardtest_init gpio pin_ids button_ids w) (λ _ w'. All IsDeaf (log w'))
  unfolding am57xx_boardtest_init
  boardtest_init-IsDeaf pin_ids button_ids w fresh =
      let Post = λ (r : List P × List P) (w' : W). All IsDeaf (log w') in
      Ensures-and_then _ _ Post (starts w) λ _ w1 e1.
        Ensures-and_then _ _ Post
          (pins-IsDeaf pin_ids w1 (subst (All IsDeaf) (sym (e1 ∙ fresh)) tt))
          λ pins w2 h2.
            Ensures-and_then _ _ Post (buttons-IsDeaf (take (length button_ids) pin_ids) w2 h2)
              λ buttons w3 h3.
                Ensures-and_then _ _ Post (creates w3)
                  λ _ w4 e4. ((pins, buttons), w4, refl, subst (All IsDeaf) (sym e4) h3)
