-- ===== src/Sfs/Truncate/Clear.antt =====
-- What the free map says of the blocks that a file gave up.
use cs.Base.{ℕ, ◌<◌, ◌≡◌, ◌≢◌, refl, ◌∙◌, sym, ap, ◌⊎◌, inl, inr, false, arith}
use cs.Bitmap.{Bitmap}
use cs.Bitmap.Inv.{used, with_clear, used-with_clear}
use cs.Sfs.{update}
use cs.Sfs.Owns.{Owns}

-- Parts of the file are taken from it: their blocks are free, and no other block is freed or marked.
pub record Cleared (fm : Bitmap) (map : ℕ → ℕ) (fm' : Bitmap) (map' : ℕ → ℕ) : Type 0 where
  pub shrinks : (j : ℕ) → (map' j ≡ map j) ⊎ (map' j ≡ 0)
  pub freed : (j : ℕ) → map j ≢ 0 → map' j ≡ 0 → used fm' (map j) ≡ false
  pub others : (b : ℕ) → ((j : ℕ) → map j ≢ 0 → map' j ≡ 0 → map j ≢ b) → used fm' b ≡ used fm b

pub Cleared-none :
    (fm : Bitmap) (map map' : ℕ → ℕ) → ((j : ℕ) → map' j ≡ map j) → Cleared fm map fm map'
Cleared-none fm map map' e = record {
  shrinks = λ j. inl (e j);
  freed = λ j p q. absurd (p (sym (e j) ∙ q));
  others = λ b n. refl;
}

module _ {fm : Bitmap} {n ind : ℕ} {map : ℕ → ℕ} (h : Owns fm n ind map) where
  pub Cleared-one :
      (i : ℕ)
      → map i ≢ 0
      → (map' : ℕ → ℕ) → ((j : ℕ) → map' j ≡ update map i 0 j)
      → Cleared fm map (with_clear fm (map i)) map'
  Cleared-one i has map' f =
      let below : map i < fm.nbits = omega (arith, h.inside i has, h.room) in
      record {
        shrinks = λ j. ground (arith, f j);
        freed = λ j p q. ground (arith, f j, used-with_clear h.valid (map i) below (map j), p, q);
        others = λ b n. ground (arith, f i, used-with_clear h.valid (map i) below b, n i has);
      }

  module _ {fm1 fm2 : Bitmap} {map1 map2 : ℕ → ℕ} (a : Cleared fm map fm1 map1)
      (b : Cleared fm1 map1 fm2 map2) where
    -- Where the second step begins, a part is as it was or gone.
    lost : (j : ℕ) → map j ≢ 0 → (map1 j ≡ 0) ⊎ ((map1 j ≡ map j) × (map1 j ≢ 0))
    lost j p = elim (a.shrinks j) [ inl e ↦ inr (e, λ z. p (sym e ∙ z)) | inr z ↦ inl z ]

    gone : (j : ℕ) → map1 j ≡ 0 → map2 j ≡ 0
    gone j z = ground (arith, b.shrinks j)

    -- The second step frees no block that the first did.
    unlike : (j : ℕ) → map j ≢ 0 → map1 j ≡ 0 → (k : ℕ) → map1 k ≢ 0 → map1 k ≢ map j
    unlike j p z k q e = elim (a.shrinks k) [
      | inl y ↦ q (ap map1 (h.one k j (λ o. q (y ∙ o)) (sym y ∙ e)) ∙ z)
      | inr y ↦ q y
    ]

    pub Cleared-then : Cleared fm map fm2 map2
    Cleared-then = record {
      shrinks = λ j. ground (arith, a.shrinks j, b.shrinks j);
      freed = λ j p q. elim (lost j p) [
        | inl z ↦ b.others (map j) (λ k x y. unlike j p z k x) ∙ a.freed j p z
        | inr y ↦ ap (used fm2) (sym y.0) ∙ b.freed j y.1 q
      ];
      others = λ k x. b.others k (λ j p q. same j p q k x) ∙ a.others k (λ j p q. x j p (gone j q));
    }
      where
        same :
            (j : ℕ)
            → map1 j ≢ 0
            → map2 j ≡ 0
            → (k : ℕ) → ((i : ℕ) → map i ≢ 0 → map2 i ≡ 0 → map i ≢ k)
            → map1 j ≢ k
        same j p q k x e = elim (a.shrinks j) [
          | inl y ↦ x j (λ z. p (y ∙ z)) q (sym y ∙ e)
          | inr y ↦ p y
        ]
