-- ===== src/Rproc/Offsets.antt =====
-- What a reader of the table finds at the offsets.
use testsystem.Prelude.{
  ℕ, zero, suc, ◌+◌, ◌*◌, ◌<◌, ◌≡◌, refl, Option, none, some, List, [], ◌∷◌, map, arith, length,
  get_elem?, ◌==◌, if◌then◌else◌, All,
}
use testsystem.Rproc.{Entry, Sizes, size_of, entries, num, offset_of, offset_indices, offset}

-- The structure that begins at an offset, if the first of the list begins at `start`.
unfoldable pub find_entry : Sizes → List Entry → ℕ → ℕ → Option Entry
find_entry s [] start off = none
find_entry s (e ∷ es) start off =
    let rest = find_entry s es (start + size_of s e) off in if start == off then some e else rest

pub record IsSized (s : Sizes) : Type 0 where
  pub vdev : 0 < s.vdev_size
  pub vring : 0 < s.vring_size
  pub carveout : 0 < s.carveout_size
  pub trace : 0 < s.trace_size
  pub devmem : 0 < s.devmem_size

size_of-pos : (s : Sizes) (e : Entry) → IsSized s → 0 < size_of s e
size_of-pos s (Entry.vdev id n d g c st v) h = h.vdev
size_of-pos s (Entry.vring da al k n) h = h.vring
size_of-pos s (Entry.carveout r) h = h.carveout
size_of-pos s (Entry.trace da len name) h = h.trace
size_of-pos s (Entry.devmem r) h = h.devmem

-- The offset less the header.
distance : Sizes → List Entry → ℕ → ℕ
distance s es zero = 0
distance s [] (suc i) = 0
distance s (e ∷ es) (suc i) = size_of s e + distance s es i

offset_of-eq :
    (s : Sizes) (n : ℕ) (es : List Entry) (i : ℕ)
    → offset_of s n es i ≡ s.header + n * 4 + distance s es i
unfolding offset_of distance
offset_of-eq s n es zero = omega arith
offset_of-eq s n [] (suc i) = omega arith
offset_of-eq s n (e ∷ es) (suc i) = omega (arith, offset_of-eq s n es i)

find_entry-distance :
    (s : Sizes) (es : List Entry) (i start off : ℕ)
    → IsSized s
    → i < length es
    → off ≡ start + distance s es i
    → find_entry s es start off ≡ get_elem? es i
unfolding find_entry distance
find_entry-distance s [] i start off h l e = absurd (omega arith)
find_entry-distance s (x ∷ es) zero start off h l e = ground arith
find_entry-distance s (x ∷ es) (suc i) start off h l e =
    ground (arith, size_of-pos s x h, find_entry-distance s es i (start + size_of s x) off h)

find_entry-offset_of :
    (s : Sizes) (n : ℕ) (es : List Entry) (i : ℕ)
    → IsSized s
    → i < length es
    → find_entry s es (s.header + n * 4) (offset_of s n es i) ≡ get_elem? es i
find_entry-offset_of s n es i h l =
    find_entry-distance s es i (s.header + n * 4) (offset_of s n es i) h l (offset_of-eq s n es i)

pub map-find_entry :
    (s : Sizes) (n : ℕ) (es : List Entry) (is : List ℕ)
    → IsSized s
    → All (λ i. i < length es) is
    → map (find_entry s es (s.header + n * 4)) (map (offset_of s n es) is) ≡ map (get_elem? es) is
map-find_entry s n es [] h a = refl
map-find_entry s n es (i ∷ is) h a =
    rw (find_entry-offset_of s n es i h a.0, map-find_entry s n es is h a.1)

-- The table has `num` offsets, and whatever the sizes of the structures, if none is empty, a reader
-- finds at them the structures of `offset_indices`, none of them missing.
pub offset-entries :
    (s : Sizes) (tracebuffer tracebuffer_cpu1 : ℕ)
    → IsSized s
    → let es = entries tracebuffer tracebuffer_cpu1 in
      (length (offset s es) ≡ num)
      × (map (find_entry s es (s.header + num * 4)) (offset s es)
          ≡ map (get_elem? es) offset_indices)
      × All (λ i. i < length es) offset_indices
unfolding offset offset_indices entries
offset-entries s a b h =
    let bounds : All (λ i. i < 21) offset_indices = omega arith in
    (refl, map-find_entry s num (entries a b) offset_indices h bounds, bounds)
