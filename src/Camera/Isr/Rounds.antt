-- ===== src/Camera/Isr/Rounds.antt =====
-- The loops of hpmicro_cam_isr end, and keep the buffers.
use hpm_support.Prelude.{
  ℕ, zero, suc, ◌+◌, ◌<◌, ◌≡◌, ◌==◌, ◌∙◌, refl, ap, arith, ◌⊎◌, inl, inr, true, false, not, ◌&&◌,
  Option, none, some, List, [], ◌∷◌, ◌++◌, length, Bool-cases, if_ind, append_assoc,
}
use hpm_support.Camera.Types.{Vbuf, Dev}
use hpm_support.Camera.Hal.{Os, Hal, Config}
use hpm_support.Camera.Isr.{is_first, first_or, requeue, match_buffer, search_next, use_next}

abbrev pub head_of : List Vbuf → Option Vbuf
head_of [] = none
head_of (v ∷ vs) = some v

abbrev pub tail_of : List Vbuf → List Vbuf
tail_of [] = []
tail_of (v ∷ vs) = vs

-- What the kernel documents of a FIFO that holds the list `items`
pub record FifoLaws {Fifo Hw : Type 0} (os : Os Fifo Hw) (items : Fifo → List Vbuf) : Type 0 where
  pub get_lem : (q : Fifo) → (os.fifo_get q).0 ≡ head_of (items q)
  pub get_items : (q : Fifo) → items (os.fifo_get q).1 ≡ tail_of (items q)
  pub put_items : (v : Vbuf) (q : Fifo) → items (os.fifo_put v q) ≡ items q ++ (v ∷ [])

-- The sum of a number for each buffer
abbrev pub weight : (ℕ → ℕ) → List Vbuf → ℕ
weight w [] = 0
weight w (v ∷ vs) = w v.id + weight w vs

abbrev pub list_of : Option Vbuf → List Vbuf
list_of none = []
list_of (some v) = v ∷ []

pub weight-append :
    (w : ℕ → ℕ) (xs ys : List Vbuf) → weight w (xs ++ ys) ≡ weight w xs + weight w ys
weight-append w [] ys = omega arith
weight-append w (x ∷ xs) ys = omega (arith, weight-append w xs ys)

module _ {Fifo Hw : Type 0} (os : Os Fifo Hw) (hal : Hal Hw) (cfg : Config)
    (items : Fifo → List Vbuf) (laws : FifoLaws os items) (w : ℕ → ℕ) where
  -- The search ends with a buffer or none, and changes only the FIFO, in which the others are.
  abbrev pub Found : Dev Fifo Hw → Option (Option Vbuf × Dev Fifo Hw) → Type 0
  Found d o =
      (v : Option Vbuf) × (q : Fifo) × (o ≡ some (v, record d { fifo_in = q }))
      × (weight w (list_of v) + weight w (items q) ≡ weight w (items d.fifo_in))

  -- A round of the search, on a FIFO that is not empty
  match_buffer-round :
      (n addr : ℕ) (first : Option ℕ) (d : Dev Fifo Hw) (v : Vbuf) (vs : List Vbuf)
      → items d.fifo_in ≡ v ∷ vs
      → (items (os.fifo_put v (os.fifo_get d.fifo_in).1) ≡ vs ++ (v ∷ [])
          → is_first first v.id ≡ false
          → Found (requeue os hal cfg v (os.fifo_get d.fifo_in).1 d) (
              match_buffer os hal cfg n addr
                (first_or first v.id)
                (requeue os hal cfg v (os.fifo_get d.fifo_in).1 d)))
      → Found d (match_buffer os hal cfg (suc n) addr first d)
  unfolding match_buffer
  match_buffer-round n addr first d v vs h next =
      let q = (os.fifo_get d.fifo_in).1 in
      let g : (os.fifo_get d.fifo_in).0 ≡ some v = laws.get_lem d.fifo_in ∙ ap head_of h in
      let t : items q ≡ vs = laws.get_items d.fifo_in ∙ ap tail_of h in
      let p : items (os.fifo_put v q) ≡ vs ++ (v ∷ []) = laws.put_items v q ∙ rw t refl in
      let c = weight-append w vs (v ∷ []) in
      elim (Bool-cases (v.buffer == addr)) [
        | inl e ↦ (some v, q, rw (g, e) refl, rw (h, t) (omega arith))
        | inr e ↦ elim (Bool-cases (is_first first v.id)) [
          | inl f ↦ (none, os.fifo_put v q, rw (g, e, f) refl, rw (h, p) (omega (arith, c)))
          | inr f ↦
              let (o, r, x, y) = next p f in
              (o, r, rw (g, e, f) x, y ∙ rw (h, p) (omega (arith, c)))
        ]
      ]

  -- The search that started with the buffer `b` ends there at the latest.
  match_buffer-from :
      (n addr f : ℕ) (d : Dev Fifo Hw) (pre post : List Vbuf) (b : Vbuf)
      → items d.fifo_in ≡ pre ++ (b ∷ post)
      → (f == b.id) ≡ true
      → length pre < n
      → Found d (match_buffer os hal cfg n addr (some f) d)
  match_buffer-from zero addr f d pre post b h e l = absurd (omega (arith, l))
  match_buffer-from (suc n) addr f d [] post b h e l =
      match_buffer-round n addr (some f) d b post h (λ p x. cc)
  match_buffer-from (suc n) addr f d (v ∷ pre) post b h e l =
      let q = (os.fifo_get d.fifo_in).1 in
      match_buffer-round n addr (some f) d v (pre ++ (b ∷ post)) h (λ p x.
        match_buffer-from n addr f (requeue os hal cfg v q d) pre (post ++ (v ∷ [])) b
          (p ∙ append_assoc pre (b ∷ post) (v ∷ [])) e (omega (arith, l)))

  match_buffer-empty :
      (n addr : ℕ) (d : Dev Fifo Hw)
      → items d.fifo_in ≡ []
      → (os.fifo_get d.fifo_in).0 ≡ none
      → Found d (match_buffer os hal cfg (suc n) addr none d)
  unfolding match_buffer
  match_buffer-empty n addr d h g =
      let q = (os.fifo_get d.fifo_in).1 in
      let t : items q ≡ [] = laws.get_items d.fifo_in ∙ ap tail_of h in
      (none, q, rw g refl, rw (h, t) refl)

  -- More rounds than buffers, and one, are enough.
  pub match_buffer-Found :
      (n addr : ℕ) (d : Dev Fifo Hw)
      → length (items d.fifo_in) < n
      → Found d (match_buffer os hal cfg (suc n) addr none d)
  match_buffer-Found n addr d l = go (items d.fifo_in) refl l
    where
      go :
          (q : List Vbuf)
          → items d.fifo_in ≡ q
          → length q < n
          → Found d (match_buffer os hal cfg (suc n) addr none d)
      go [] h l =
          let g : (os.fifo_get d.fifo_in).0 ≡ none = laws.get_lem d.fifo_in ∙ ap head_of h in
          match_buffer-empty n addr d h g
      go (v ∷ vs) h l =
          let q = (os.fifo_get d.fifo_in).1 in
          let e : (v.id == v.id) ≡ true = ground arith in
          match_buffer-round n addr none d v vs h (λ p x.
            match_buffer-from n addr v.id (requeue os hal cfg v q d) vs [] v p e (omega (arith, l)))

  -- The same for the search of the start of a frame, which can program the unit.
  abbrev pub Looked : Dev Fifo Hw → Option (Dev Fifo Hw) → Type 0
  Looked d o =
      (q : Fifo) × (hw : Hw) × (o ≡ some (record d { fifo_in = q; hw = hw }))
      × (weight w (items q) ≡ weight w (items d.fifo_in))

  -- A buffer is of no use, or the unit gets its address.
  Uses : Dev Fifo Hw → Option (Dev Fifo Hw) → Type 0
  Uses d o = (o ≡ none) ⊎ ((hw : Hw) × (o ≡ some (record d { hw = hw })))

  use_next-Uses : (v : Vbuf) (d : Dev Fifo Hw) → Uses d (use_next os hal cfg v d)
  unfolding Uses
  use_next-Uses v d =
      if_ind (Uses d) (not (v.buffer == hal.dmasa_fb1 d.hw) && (d.cam_dmafb_index == 0))
        (inr (hal.update_buffer v.buffer d.hw, refl))
        (if_ind (Uses d) (not (v.buffer == hal.dmasa_fb2 d.hw) && (d.cam_dmafb_index == 1))
          (inr (hal.update_buffer2 v.buffer d.hw, refl)) (inl refl))

  search_next-round :
      (n : ℕ) (first : Option ℕ) (d : Dev Fifo Hw) (v : Vbuf) (vs : List Vbuf)
      → items d.fifo_in ≡ v ∷ vs
      → (items (os.fifo_put v (os.fifo_get d.fifo_in).1) ≡ vs ++ (v ∷ [])
          → is_first first v.id ≡ false
          → Looked (requeue os hal cfg v (os.fifo_get d.fifo_in).1 d) (
              search_next os hal cfg n
                (first_or first v.id)
                (requeue os hal cfg v (os.fifo_get d.fifo_in).1 d)))
      → Looked d (search_next os hal cfg (suc n) first d)
  unfolding search_next Uses
  search_next-round n first d v vs h next =
      let q = (os.fifo_get d.fifo_in).1 in
      let g : (os.fifo_get d.fifo_in).0 ≡ some v = laws.get_lem d.fifo_in ∙ ap head_of h in
      let t : items q ≡ vs = laws.get_items d.fifo_in ∙ ap tail_of h in
      let p : items (os.fifo_put v q) ≡ vs ++ (v ∷ []) = laws.put_items v q ∙ rw t refl in
      let c = weight-append w vs (v ∷ []) in
      let z : weight w (items (os.fifo_put v q)) ≡ weight w (items d.fifo_in) =
        rw (h, p) (omega (arith, c)) in
      elim (use_next-Uses v d) [
        | inr e ↦ (os.fifo_put v q, e.0, rw (g, e.1) refl, z)
        | inl e ↦ elim (Bool-cases (is_first first v.id)) [
          | inl f ↦ (os.fifo_put v q, d.hw, rw (g, e, f) refl, z)
          | inr f ↦ let (r, hw, x, y) = next p f in (r, hw, rw (g, e, f) x, y ∙ z)
        ]
      ]

  search_next-from :
      (n f : ℕ) (d : Dev Fifo Hw) (pre post : List Vbuf) (b : Vbuf)
      → items d.fifo_in ≡ pre ++ (b ∷ post)
      → (f == b.id) ≡ true
      → length pre < n
      → Looked d (search_next os hal cfg n (some f) d)
  search_next-from zero f d pre post b h e l = absurd (omega (arith, l))
  search_next-from (suc n) f d [] post b h e l = search_next-round n (some f) d b post h (λ p x. cc)
  search_next-from (suc n) f d (v ∷ pre) post b h e l =
      let q = (os.fifo_get d.fifo_in).1 in
      search_next-round n (some f) d v (pre ++ (b ∷ post)) h (λ p x.
        search_next-from n f (requeue os hal cfg v q d) pre (post ++ (v ∷ [])) b
          (p ∙ append_assoc pre (b ∷ post) (v ∷ [])) e (omega (arith, l)))

  search_next-empty :
      (n : ℕ) (d : Dev Fifo Hw)
      → items d.fifo_in ≡ []
      → (os.fifo_get d.fifo_in).0 ≡ none
      → Looked d (search_next os hal cfg (suc n) none d)
  unfolding search_next
  search_next-empty n d h g =
      let q = (os.fifo_get d.fifo_in).1 in
      let t : items q ≡ [] = laws.get_items d.fifo_in ∙ ap tail_of h in
      (q, d.hw, rw g refl, rw (h, t) refl)

  pub search_next-Looked :
      (n : ℕ) (d : Dev Fifo Hw)
      → length (items d.fifo_in) < n
      → Looked d (search_next os hal cfg (suc n) none d)
  search_next-Looked n d l = go (items d.fifo_in) refl l
    where
      go :
          (q : List Vbuf)
          → items d.fifo_in ≡ q
          → length q < n
          → Looked d (search_next os hal cfg (suc n) none d)
      go [] h l =
          let g : (os.fifo_get d.fifo_in).0 ≡ none = laws.get_lem d.fifo_in ∙ ap head_of h in
          search_next-empty n d h g
      go (v ∷ vs) h l =
          let q = (os.fifo_get d.fifo_in).1 in
          let e : (v.id == v.id) ≡ true = ground arith in
          search_next-round n none d v vs h (λ p x.
            search_next-from n v.id (requeue os hal cfg v q d) vs [] v p e (omega (arith, l)))
