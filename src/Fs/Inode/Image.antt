-- ===== src/Fs/Inode/Image.antt =====
-- The image of an inode on the disk: what `iupdate` writes is what `ilock` of project3/fs.c reads.
use ele3021_os.Common.{
  ℕ, zero, suc, ◌+◌, ◌*◌, ◌^◌, ◌<◌, ◌≤◌, ◌≡◌, ◌≢◌, ◌⊎◌, inr, true, false, arith, ltb, ◌==◌, update,
  update_self, update_ne, ℕ_discrete, ◌∙◌, refl, ap, sym, subst,
}
use ele3021_os.Fs.Block.{
  Block, get_short, put_short, get_word, put_word, get_word-put_word, get_word-put_word_ne,
  get_short-put_short, get_short-put_short_ne, get_short-put_word, get_word-put_short,
}
use ele3021_os.Fs.State.{Fs, ok}
use ele3021_os.Fs.Inode.{
  Inode, naddrs, dinode_size, iblock, dinode_at, put_addrs, put_dinode, iupdate, get_dinode, ilock,
}

-- The fields of an inode have the widths of the C struct.
pub record Fits (ip : Inode) : Type 0 where
  pub type_lt : ip.type' < 2 ^ 16
  pub major_lt : ip.major < 2 ^ 16
  pub minor_lt : ip.minor < 2 ^ 16
  pub nlink_lt : ip.nlink < 2 ^ 16
  pub size_lt : ip.size < 2 ^ 32
  pub addrs_lt : (i : ℕ) → ip.addrs i < 2 ^ 32

-- The image at byte `o` of a block is that of the inode.
pub record IsImage (ip : Inode) (o : ℕ) (b : Block) : Type 0 where
  pub type_eq : get_short b o ≡ ip.type'
  pub major_eq : get_short b (o + 2) ≡ ip.major
  pub minor_eq : get_short b (o + 4) ≡ ip.minor
  pub nlink_eq : get_short b (o + 6) ≡ ip.nlink
  pub size_eq : get_word b (o + 8) ≡ ip.size
  pub addrs_eq : (i : ℕ) → i < naddrs → get_word b (o + 28 + 4 * i) ≡ ip.addrs i

get_word-put_addrs :
    (addrs : ℕ → ℕ) (o n i : ℕ) (b : Block)
    → ((k : ℕ) → addrs k < 2 ^ 32)
    → i < n
    → get_word (put_addrs addrs o n b) (o + 28 + 4 * i) ≡ addrs i
unfolding put_addrs
get_word-put_addrs addrs o zero i b fit h = omega arith
get_word-put_addrs addrs o (suc n) i b fit h = elim (ℕ_discrete i n) [
  | yes e ↦ rw e (get_word-put_word _ (o + 28 + 4 * n) (addrs n) (fit n))
  | no ne ↦
      get_word-put_word_ne _ (o + 28 + 4 * n) (o + 28 + 4 * i) (addrs n) (inr (omega arith))
      ∙ get_word-put_addrs addrs o n i b fit (omega arith)
]

get_word-put_addrs_ne :
    (addrs : ℕ → ℕ) (o n p : ℕ) (b : Block)
    → (o + 28 + 4 * n ≤ p) ⊎ (p + 4 ≤ o + 28)
    → get_word (put_addrs addrs o n b) p ≡ get_word b p
unfolding put_addrs
get_word-put_addrs_ne addrs o zero p b h = refl
get_word-put_addrs_ne addrs o (suc n) p b h =
    get_word-put_word_ne _ (o + 28 + 4 * n) p (addrs n) (omega arith)
    ∙ get_word-put_addrs_ne addrs o n p b (omega arith)

get_short-put_addrs :
    (addrs : ℕ → ℕ) (o n p : ℕ) (b : Block)
    → (o + 28 + 4 * n ≤ p) ⊎ (p + 2 ≤ o + 28)
    → get_short (put_addrs addrs o n b) p ≡ get_short b p
unfolding put_addrs
get_short-put_addrs addrs o zero p b h = refl
get_short-put_addrs addrs o (suc n) p b h =
    get_short-put_word _ (o + 28 + 4 * n) p (addrs n) (omega arith)
    ∙ get_short-put_addrs addrs o n p b (omega arith)

pub put_dinode-IsImage :
    (ip : Inode) (o : ℕ) (b : Block) → Fits ip → IsImage ip o (put_dinode ip o b)
unfolding put_dinode
put_dinode-IsImage ip o b fit =
    let b1 = put_short b o ip.type' in
    let b2 = put_short b1 (o + 2) ip.major in
    let b3 = put_short b2 (o + 4) ip.minor in
    let b4 = put_short b3 (o + 6) ip.nlink in
    let b5 = put_word b4 (o + 8) ip.size in
    record {
      type_eq =
          get_short-put_addrs ip.addrs o naddrs o b5 (inr (omega arith))
          ∙ (get_short-put_word b4 (o + 8) o ip.size (inr (omega arith))
              ∙ (get_short-put_short_ne b3 (o + 6) o ip.nlink (inr (omega arith))
                  ∙ (get_short-put_short_ne b2 (o + 4) o ip.minor (inr (omega arith))
                      ∙ (get_short-put_short_ne b1 (o + 2) o ip.major (inr (omega arith))
                          ∙ get_short-put_short b o ip.type' fit.type_lt))));
      major_eq =
          get_short-put_addrs ip.addrs o naddrs (o + 2) b5 (inr (omega arith))
          ∙ (get_short-put_word b4 (o + 8) (o + 2) ip.size (inr (omega arith))
              ∙ (get_short-put_short_ne b3 (o + 6) (o + 2) ip.nlink (inr (omega arith))
                  ∙ (get_short-put_short_ne b2 (o + 4) (o + 2) ip.minor (inr (omega arith))
                      ∙ get_short-put_short b1 (o + 2) ip.major fit.major_lt)));
      minor_eq =
          get_short-put_addrs ip.addrs o naddrs (o + 4) b5 (inr (omega arith))
          ∙ (get_short-put_word b4 (o + 8) (o + 4) ip.size (inr (omega arith))
              ∙ (get_short-put_short_ne b3 (o + 6) (o + 4) ip.nlink (inr (omega arith))
                  ∙ get_short-put_short b2 (o + 4) ip.minor fit.minor_lt));
      nlink_eq =
          get_short-put_addrs ip.addrs o naddrs (o + 6) b5 (inr (omega arith))
          ∙ (get_short-put_word b4 (o + 8) (o + 6) ip.size (inr (omega arith))
              ∙ get_short-put_short b3 (o + 6) ip.nlink fit.nlink_lt);
      size_eq =
          get_word-put_addrs_ne ip.addrs o naddrs (o + 8) b5 (inr (omega arith))
          ∙ get_word-put_word b4 (o + 8) ip.size fit.size_lt;
      addrs_eq = λ i h. get_word-put_addrs ip.addrs o naddrs i b5 fit.addrs_lt h;
    }

pub put_dinode-get_short :
    (ip : Inode) (o p : ℕ) (b : Block)
    → (o + dinode_size ≤ p) ⊎ (p + 2 ≤ o)
    → get_short (put_dinode ip o b) p ≡ get_short b p
unfolding put_dinode
put_dinode-get_short ip o p b far =
    get_short-put_addrs ip.addrs o naddrs p _ (omega arith)
    ∙ (get_short-put_word _ (o + 8) p ip.size (omega arith)
        ∙ (get_short-put_short_ne _ (o + 6) p ip.nlink (omega arith)
            ∙ (get_short-put_short_ne _ (o + 4) p ip.minor (omega arith)
                ∙ (get_short-put_short_ne _ (o + 2) p ip.major (omega arith)
                    ∙ get_short-put_short_ne b o p ip.type' (omega arith)))))

pub put_dinode-get_word :
    (ip : Inode) (o p : ℕ) (b : Block)
    → (o + dinode_size ≤ p) ⊎ (p + 4 ≤ o)
    → get_word (put_dinode ip o b) p ≡ get_word b p
unfolding put_dinode
put_dinode-get_word ip o p b far =
    get_word-put_addrs_ne ip.addrs o naddrs p _ (omega arith)
    ∙ (get_word-put_word_ne _ (o + 8) p ip.size (omega arith)
        ∙ (get_word-put_short _ (o + 6) p ip.nlink (omega arith)
            ∙ (get_word-put_short _ (o + 4) p ip.minor (omega arith)
                ∙ (get_word-put_short _ (o + 2) p ip.major (omega arith)
                    ∙ get_word-put_short b o p ip.type' (omega arith)))))

-- the image of inode `inum` on the disk
abbrev pub image : ℕ → Fs → Block
image inum s = s.data' (iblock inum s)

iupdate-image :
    (ip : Inode) (s : Fs)
    → image ip.inum (iupdate ip s) ≡ put_dinode ip (dinode_at ip.inum) (image ip.inum s)
unfolding iupdate
iupdate-image ip s = update_self s.data' (iblock ip.inum s) _

ilock-read :
    (jp : Inode) (s : Fs)
    → jp.ref ≢ 0
    → jp.valid ≡ false
    → get_short (image jp.inum s) (dinode_at jp.inum) ≢ 0
    → ilock jp s ≡ ok (get_dinode jp (dinode_at jp.inum) (image jp.inum s))
unfolding ilock get_dinode
ilock-read jp s live cold typed =
    let a : (jp.ref == 0) ≡ false = ground arith in
    let b : (get_short (image jp.inum s) (dinode_at jp.inum) == 0) ≡ false = ground arith in
    rw (a, cold, b)

-- `ilock` of an inode that is not in memory reads the fields that `iupdate` last wrote for it.
pub ilock-iupdate :
    (ip jp : Inode) (s : Fs)
    → Fits ip
    → ip.type' ≢ 0
    → jp.inum ≡ ip.inum
    → jp.ref ≢ 0
    → jp.valid ≡ false
    → (jp' : Inode) × (ilock jp (iupdate ip s) ≡ ok jp')
      × (jp'.type' ≡ ip.type')
      × (jp'.major ≡ ip.major)
      × (jp'.minor ≡ ip.minor)
      × (jp'.nlink ≡ ip.nlink)
      × (jp'.size ≡ ip.size)
      × ((i : ℕ) → i < naddrs → jp'.addrs i ≡ ip.addrs i)
unfolding get_dinode
ilock-iupdate ip jp s fit typed same live cold =
    let o : ℕ = dinode_at jp.inum in
    let s' : Fs = iupdate ip s in
    let m : IsImage ip o (image jp.inum s') =
      subst (λ k. IsImage ip (dinode_at k) (image k s')) (sym same)
        (subst (IsImage ip (dinode_at ip.inum)) (sym (iupdate-image ip s))
          (put_dinode-IsImage ip (dinode_at ip.inum) (image ip.inum s) fit)) in
    (
      get_dinode jp o (image jp.inum s'),
      ilock-read jp s' live cold (λ e. typed (sym m.type_eq ∙ e)),
      m.type_eq,
      m.major_eq,
      m.minor_eq,
      m.nlink_eq,
      m.size_eq,
      λ i h. let e : ltb i naddrs ≡ true = ground arith in rw e (m.addrs_eq i h),
    )

-- `iupdate` of one inode spares the image of every other, also of those in the same block.
pub iupdate-spares :
    (ip : Inode) (inum p : ℕ) (s : Fs)
    → inum ≢ ip.inum
    → p + 4 ≤ dinode_size
    → (get_short (image inum (iupdate ip s)) (dinode_at inum + p)
        ≡ get_short (image inum s) (dinode_at inum + p))
      × (get_word (image inum (iupdate ip s)) (dinode_at inum + p)
          ≡ get_word (image inum s) (dinode_at inum + p))
iupdate-spares ip inum p s ne h = elim (ℕ_discrete (iblock ip.inum s) (iblock inum s)) [
  | no other ↦
      let e : image inum (iupdate ip s) ≡ image inum s =
        unfold iupdate in update_ne s.data' (iblock ip.inum s) _ (iblock inum s) other in
      (ap (λ b. get_short b (dinode_at inum + p)) e, ap (λ b. get_word b (dinode_at inum + p)) e)
  | yes same ↦
      let e : image inum (iupdate ip s) ≡ put_dinode ip (dinode_at ip.inum) (image inum s) =
        unfold iupdate in
        subst
          (λ k.
            update s.data' (iblock ip.inum s)
              (put_dinode ip (dinode_at ip.inum) (s.data' (iblock ip.inum s))) k
            ≡ put_dinode ip (dinode_at ip.inum) (s.data' k))
          same (update_self s.data' (iblock ip.inum s) _) in
      (
        ap (λ b. get_short b (dinode_at inum + p)) e
            ∙ put_dinode-get_short ip (dinode_at ip.inum) (dinode_at inum + p) (image inum s)
                (omega arith),
        ap (λ b. get_word b (dinode_at inum + p)) e
            ∙ put_dinode-get_word ip (dinode_at ip.inum) (dinode_at inum + p) (image inum s)
                (omega arith),
      )
]
