-- ===== src/Fs/Cache/Allocating.antt =====
-- `ialloc` of project3/fs.c.
use ele3021_os.Common.{
  ℕ, zero, suc, ◌+◌, ◌-◌, ◌^◌, ◌<◌, ◌≤◌, ◌≡◌, ◌≢◌, ◌⊎◌, inl, inr, true, false, ◌==◌, update,
  update_self, update_ne, refl, ap, ◌∙◌, arith, ℕ_discrete, subst,
}
use ele3021_os.Fs.Block.{Block, get_short, put_short, get_short-put_short}
use ele3021_os.Fs.State.{Fs, Result, panic, write}
use ele3021_os.Fs.Inode.{iblock, dinode_at, dinode_size}
use ele3021_os.Fs.Inode.Image.{image}
use ele3021_os.Fs.Cache.{Icache, iget, fresh_dinode, ialloc_from, ialloc}

-- the type of an inode on the disk, 0 for a free one
abbrev pub type_at : ℕ → Fs → ℕ
type_at inum s = get_short (image inum s) (dinode_at inum)

abbrev allocated : ℕ → ℕ → Fs → Fs
allocated type' inum s =
    write (iblock inum s) (fresh_dinode type' (dinode_at inum) (image inum s)) s

-- The images on the disk `s'` are those of `s`, but that of `inum`, which has a type and zeros.
pub record Fresh (type' inum : ℕ) (s s' : Fs) : Type 0 where
  pub typed : type_at inum s' ≡ type'
  pub zeros : (p : ℕ) → 2 ≤ p → p < dinode_size → image inum s' (dinode_at inum + p) ≡ 0
  pub others :
      (j p : ℕ)
      → j ≢ inum
      → p < dinode_size
      → image j s' (dinode_at j + p) ≡ image j s (dinode_at j + p)

fresh_dinode-outside :
    (type' o q : ℕ) (b : Block) → (q < o) ⊎ (o + dinode_size ≤ q) → fresh_dinode type' o b q ≡ b q
unfolding fresh_dinode put_short
fresh_dinode-outside type' o q b far = ground arith

fresh_dinode-zero :
    (type' o p : ℕ) (b : Block) → 2 ≤ p → p < dinode_size → fresh_dinode type' o b (o + p) ≡ 0
unfolding fresh_dinode put_short
fresh_dinode-zero type' o p b low high = ground arith

allocated-Fresh :
    (type' inum : ℕ) (s : Fs) → type' < 2 ^ 16 → Fresh type' inum s (allocated type' inum s)
allocated-Fresh type' inum s fit =
    let b : Block = fresh_dinode type' (dinode_at inum) (image inum s) in
    let at : image inum (allocated type' inum s) ≡ b = update_self s.data' (iblock inum s) b in
    record {
      typed =
          ap (λ (x : Block). get_short x (dinode_at inum)) at
          ∙ (unfold fresh_dinode in get_short-put_short _ (dinode_at inum) type' fit);
      zeros = λ p low high.
          ap (λ (x : Block). x (dinode_at inum + p)) at
          ∙ fresh_dinode-zero type' (dinode_at inum) p (image inum s) low high;
      others = λ j p ne inside. elim (ℕ_discrete (iblock inum s) (iblock j s)) [
        | no other ↦
            ap (λ (x : Block). x (dinode_at j + p))
              (update_ne s.data' (iblock inum s) b (iblock j s) other)
        | yes same ↦
            let e : image j (allocated type' inum s) ≡ b =
              subst (λ x. (update s.data' (iblock inum s) b) x ≡ b) same at in
            ap (λ (x : Block). x (dinode_at j + p)) e
            ∙ (fresh_dinode-outside type' (dinode_at inum) (dinode_at j + p) (image inum s)
                  (omega (arith, same, ne, inside))
                ∙ ap (λ x. s.data' x (dinode_at j + p)) same)
      ];
    }

-- The outcome of a search from `i` on with `n` inodes left.
abbrev pub Allocated : ℕ → ℕ → ℕ → Icache → Result (ℕ × Icache) → Type 0
Allocated type' i n c r =
    ((r ≡ panic) × ((j : ℕ) → i ≤ j → j < i + n → type_at j c.fs ≢ 0))
    ⊎ ((inum : ℕ) × (s : Fs) × (i ≤ inum)
        × (inum < i + n)
        × (type_at inum c.fs ≡ 0)
        × ((j : ℕ) → i ≤ j → j < inum → type_at j c.fs ≢ 0)
        × (r ≡ iget inum (record c { fs = s }))
        × Fresh type' inum c.fs s)

ialloc_from-Allocated :
    (type' i n : ℕ) (c : Icache) → type' < 2 ^ 16 → Allocated type' i n c (ialloc_from type' i n c)
unfolding ialloc_from
ialloc_from-Allocated type' i zero c fit =
    inl (refl, λ j low high. absurd (omega (arith, low, high)))
ialloc_from-Allocated type' i (suc n) c fit = elim (ℕ_discrete (type_at i c.fs) 0) [
  | yes z ↦
      let t : (type_at i c.fs == 0) ≡ true = ground (arith, z) in
      inr (
        i,
        allocated type' i c.fs,
        omega arith,
        omega arith,
        z,
        λ j low high. absurd (omega (arith, low, high)),
        rw t refl,
        allocated-Fresh type' i c.fs fit,
      )
  | no nz ↦
      let t : (type_at i c.fs == 0) ≡ false = ground (arith, nz) in
      let before : (j : ℕ)
          → i ≤ j
          → ((k : ℕ) → suc i ≤ k → k ≤ j → type_at k c.fs ≢ 0)
          → type_at j c.fs ≢ 0 =
        λ j low h. elim (ℕ_discrete i j) [
          | yes e ↦ subst (λ x. type_at x c.fs ≢ 0) e nz
          | no ne ↦ h j (omega arith) (omega arith)
        ] in
      elim (ialloc_from-Allocated type' (suc i) n c fit) [
        | inl (stuck, none_free) ↦
            inl
              (rw t stuck, λ j low high. before j low (λ k low' le. none_free k low' (omega arith)))
        | inr (inum, s, low, high, free, first, e, fresh) ↦ inr (
          inum,
          s,
          omega arith,
          omega arith,
          free,
          λ j low' high'. before j low' (λ k low2 le. first k low2 (omega arith)),
          rw t e,
          fresh,
        )
      ]
]

-- `ialloc` panics where no inode is free, and else takes the first free one of the disk: it returns it
-- as `iget` gives it, its image on the disk has the new type and zeros, and no other image changes.
pub ialloc-Allocated :
    (type' : ℕ) (c : Icache)
    → type' < 2 ^ 16
    → Allocated type' 1 (c.fs.sb.ninodes - 1) c (ialloc type' c)
unfolding ialloc
ialloc-Allocated type' c fit = ialloc_from-Allocated type' 1 (c.fs.sb.ninodes - 1) c fit
