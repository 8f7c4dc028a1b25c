-- ===== src/Ppm/Init.antt =====
-- `ppm_init` of src/vf610/ppm.c. What the allocator, the timer and the semaphore answer is a record
-- of the model's caller.
use testsystem.Prelude.{
  ℕ, zero, suc, ◌-◌, ◌*◌, ◌/◌, ◌^◌, ◌≤◌, ◌<◌, ◌≡◌, refl, ap, ◌∙◌, Bool, true, false, Option, none,
  some, List, [], ◌∷◌, arith, length, length-replicate, set, replicate, All, ltb, if◌then◌else◌,
  ◌⊎◌,
}
use testsystem.Prelude.Int.{ℤ, is_negative}
use testsystem.Ppm.{stoped, Call, clear_pin, create_task, free_slot, free_ppm, Ppm}
use testsystem.Ppm.Invariant.{IsReady}

-- The answers of `pvPortMalloc` (twice), `timer_init`, `timer_setOverflowCallback` and
-- `OS_CREATE_SEMARPHORE_BINARAY`. Fresh memory holds any values.
pub record Resources : Type 0 where
  pub has_ppm : Bool
  pub slot_memory : Option (List ℕ)
  pub has_timer : Bool
  pub callback_status : ℤ
  pub has_sem : Bool
  pub old_waittime : ℕ
  pub old_sum : ℕ

-- NULL behind some calls, a write outside the slot array, or a transmitter.
pub data Result : Type 0 where
  null : List Call → Result
  out_of_bounds : Result
  ready : Ppm → Result

-- `memset(p, 0, n)` over 32-bit little-endian words.
pub clear_bytes : ℕ → List ℕ → List ℕ
clear_bytes n [] = []
clear_bytes n (x ∷ xs) = (if ltb n 4 then x / 256 ^ n * 256 ^ n else 0) ∷ clear_bytes (n - 4) xs

-- `for (i = 0; i < n; i++) slot[i].time = 1000;` over an array of `n` slots.
pub fill : List ℕ → List ℕ
fill [] = []
fill (x ∷ xs) = 1000 ∷ fill xs

abbrev write : ℕ → ℕ → List ℕ → Option (List ℕ)
write i time slot = if ltb i (length slot) then some (set slot i time) else none

-- The three slots that are set by hand.
pub preset : List ℕ → Option (List ℕ)
preset slot = elim (write 0 0 slot) [
  | none ↦ none
  | some slot' ↦ elim (write 1 200 slot') [ none ↦ none | some slot'' ↦ write 2 200 slot'' ]
]

-- Behind the semaphore.
pub finish : ℕ → Resources → Option (List ℕ) → Result
finish slots r none = out_of_bounds
finish slots r (some slot) = ready (record {
  slots = slots;
  slot = slot;
  waittime = r.old_waittime;
  pos = 0;
  state = stoped;
  sum = r.old_sum;
  calls = create_task ∷ clear_pin ∷ [];
})

-- Behind the allocation of the slots, with the labels `ppm_init_error_2` and `ppm_init_error_1`.
init_slots : ℕ → Resources → Option (List ℕ) → Result
init_slots slots r none = null (free_ppm ∷ [])
init_slots slots r (some memory) =
    if r.has_timer
    then if is_negative r.callback_status
      then null (free_ppm ∷ free_slot ∷ [])
      else if r.has_sem
      then finish slots r (preset (fill (clear_bytes slots memory)))
      else null (free_ppm ∷ free_slot ∷ clear_pin ∷ [])
    else null (free_ppm ∷ free_slot ∷ [])

unfoldable pub ppm_init : ℕ → Resources → Result
unfolding init_slots
ppm_init slots r = if r.has_ppm then init_slots slots r r.slot_memory else null []

-- Every resource is there, and the slot memory has its length.
pub record IsGranted (slots : ℕ) (r : Resources) (memory : List ℕ) : Type 0 where
  pub ppm : r.has_ppm ≡ true
  pub slot : r.slot_memory ≡ some memory
  pub length_memory : length memory ≡ slots
  pub timer : r.has_timer ≡ true
  pub callback : is_negative r.callback_status ≡ false
  pub sem : r.has_sem ≡ true

fill-replicate : (xs : List ℕ) → fill xs ≡ replicate (length xs) 1000
unfolding fill
fill-replicate [] = refl
fill-replicate (x ∷ xs) = ap (λ ys. 1000 ∷ ys) (fill-replicate xs)

length-clear_bytes : (n : ℕ) (xs : List ℕ) → length (clear_bytes n xs) ≡ length xs
unfolding clear_bytes
length-clear_bytes n [] = refl
length-clear_bytes n (x ∷ xs) = ap suc (length-clear_bytes (n - 4) xs)

filled : (n : ℕ) (xs : List ℕ) → fill (clear_bytes n xs) ≡ replicate (length xs) 1000
filled n xs =
    fill-replicate (clear_bytes n xs) ∙ ap (λ k. replicate k 1000) (length-clear_bytes n xs)

granted-eq :
    (slots : ℕ) (r : Resources) (memory : List ℕ)
    → IsGranted slots r memory
    → ppm_init slots r ≡ finish slots r (preset (replicate slots 1000))
unfolding ppm_init
granted-eq slots r memory g =
    simp (g.ppm, g.slot, g.timer, g.callback, g.sem) (rw (filled slots memory, g.length_memory))

preset-three : (xs : List ℕ) → preset (1000 ∷ 1000 ∷ 1000 ∷ xs) ≡ some (0 ∷ 200 ∷ 200 ∷ xs)
unfolding preset
preset-three xs = ground arith

replicate-times : (n : ℕ) → All (λ t. t ≤ 1000) (replicate n 1000)
replicate-times zero = tt
replicate-times (suc n) = (omega arith, replicate-times n)

abbrev pub initial : ℕ → Resources → Ppm
initial k r = record {
  slots = suc (suc (suc k));
  slot = 0 ∷ 200 ∷ 200 ∷ replicate k 1000;
  waittime = r.old_waittime;
  pos = 0;
  state = stoped;
  sum = r.old_sum;
  calls = create_task ∷ clear_pin ∷ [];
}

-- For three slots or more `ppm_init` returns, if everything is granted, a stopped transmitter that
-- is ready to start.
pub ppm_init-ready :
    (k : ℕ) (r : Resources) (memory : List ℕ)
    → IsGranted (suc (suc (suc k))) r memory
    → k ≤ 1000000
    → (ppm_init (suc (suc (suc k))) r ≡ ready (initial k r)) × IsReady (initial k r)
unfolding finish
ppm_init-ready k r memory g h = (
  granted-eq (suc (suc (suc k))) r memory g
      ∙ ap (finish (suc (suc (suc k))) r) (preset-three (replicate k 1000)),
  record {
    length_slot = ap (λ n. suc (suc (suc n))) (length-replicate k 1000);
    times = (omega arith, (omega arith, (omega arith, replicate-times k)));
    not_empty = omega arith;
    small = omega arith;
  },
)

-- For fewer than three slots, and everything granted, it writes outside the slot array.
pub ppm_init-out_of_bounds :
    (slots : ℕ) (r : Resources) (memory : List ℕ)
    → IsGranted slots r memory
    → slots < 3
    → ppm_init slots r ≡ out_of_bounds
unfolding preset finish
ppm_init-out_of_bounds zero r memory g h = granted-eq zero r memory g
ppm_init-out_of_bounds (suc zero) r memory g h = granted-eq 1 r memory g
ppm_init-out_of_bounds (suc (suc zero)) r memory g h = granted-eq 2 r memory g
ppm_init-out_of_bounds (suc (suc (suc k))) r memory g h = absurd (omega arith)

-- The releases among the calls.
abbrev pub releases : List Call → List Call
releases [] = []
releases (free_ppm ∷ cs) = free_ppm ∷ releases cs
releases (free_slot ∷ cs) = free_slot ∷ releases cs
releases (_ ∷ cs) = releases cs

-- What has to be released, newest first: the slots are given back before the structure.
abbrev pub allocations : Bool → Option (List ℕ) → List Call
allocations false m = []
allocations true none = free_ppm ∷ []
allocations true (some m) = free_ppm ∷ free_slot ∷ []

-- Where `ppm_init` returns NULL, something was refused, and it has released exactly the allocations
-- that were granted.
pub ppm_init-null :
    (slots : ℕ) (r : Resources) (cs : List Call)
    → ppm_init slots r ≡ null cs
    → (releases cs ≡ allocations r.has_ppm r.slot_memory)
      × ((r.has_ppm ≡ false)
          ⊎ (r.slot_memory ≡ none)
          ⊎ (r.has_timer ≡ false)
          ⊎ (is_negative r.callback_status ≡ true)
          ⊎ (r.has_sem ≡ false))
unfolding ppm_init finish
ppm_init-null slots r cs e = ground arith
