-- ===== src/Fs/Map/Stable.antt =====
-- `bmap` of project3/fs.c where all blocks on the way are there, against a walk over a tree.
use ele3021_os.Common.{
  ℕ, ◌+◌, ◌-◌, ◌/◌, ◌%◌, ◌<◌, ◌≡◌, ◌≢◌, List, [], ◌∷◌, true, false, arith, ltb, if◌then◌else◌, ◌==◌,
  dec_lt,
}
use ele3021_os.Fs.Block.{Block, get_entry}
use ele3021_os.Fs.State.{Fs, ok}
use ele3021_os.Fs.Inode.{Inode, ndirect}
use ele3021_os.Fs.Map.{
  nindirect, ndindirect, ntindirect, maxfile, inode_entry, block_entry, bmap_single, bmap_double,
  bmap_triple, bmap,
}

-- Block `bn` of a file as a way in a tree: an entry of the inode, and an entry in each indirect block.
unfoldable pub path_to : ℕ → ℕ × List ℕ
path_to bn =
    let single = bn - ndirect in
    let double = single - nindirect in
    let triple = double - ndindirect in
    if ltb bn ndirect
    then (bn, [])
    else if ltb single nindirect
    then (ndirect, single ∷ [])
    else if ltb double ndindirect
    then (ndirect + 1, double / nindirect ∷ double % nindirect ∷ [])
    else (
      ndirect + 2,
      triple / ndindirect ∷ triple % ndindirect / nindirect ∷ triple % ndindirect % nindirect ∷ [],
    )

-- the block at the end of the way
unfoldable pub walk : (ℕ → Block) → ℕ → List ℕ → ℕ
walk blocks b [] = b
walk blocks b (i ∷ is) = walk blocks (get_entry (blocks b) i) is

-- no entry on the way is 0
unfoldable pub Live : (ℕ → Block) → ℕ → List ℕ → Type 0
Live blocks b [] = b ≢ 0
Live blocks b (i ∷ is) = (b ≢ 0) × Live blocks (get_entry (blocks b) i) is

abbrev pub block_of : Inode → Fs → ℕ → ℕ
block_of ip s bn = walk s.data' (ip.addrs ((path_to bn).0)) ((path_to bn).1)

abbrev pub IsLive : Inode → Fs → ℕ → Type 0
IsLive ip s bn = Live s.data' (ip.addrs ((path_to bn).0)) ((path_to bn).1)

inode_entry-found :
    (i : ℕ) (ip : Inode) (s : Fs) → ip.addrs i ≢ 0 → inode_entry i ip s ≡ ok (ip.addrs i, ip, s)
unfolding inode_entry
inode_entry-found i ip s h = let e : (ip.addrs i == 0) ≡ false = ground arith in rw e

block_entry-found :
    (b i : ℕ) (s : Fs)
    → get_entry (s.data' b) i ≢ 0
    → block_entry b i s ≡ ok (get_entry (s.data' b) i, s)
unfolding block_entry
block_entry-found b i s h = let e : (get_entry (s.data' b) i == 0) ≡ false = ground arith in rw e

-- Where the way to block `bn` has no entry 0, `bmap` returns the block at its end and changes nothing.
pub bmap-block_of :
    (ip : Inode) (bn : ℕ) (s : Fs)
    → bn < maxfile
    → IsLive ip s bn
    → bmap ip bn s ≡ ok (block_of ip s bn, ip, s)
unfolding bmap bmap_single bmap_double bmap_triple path_to walk Live
bmap-block_of ip bn s h = elim (dec_lt bn ndirect) [
  | yes d ↦ let e : ltb bn ndirect ≡ true = ground arith in rw e (λ l. inode_entry-found bn ip s l)
  | no nd ↦
      let e : ltb bn ndirect ≡ false = ground arith in
      elim (dec_lt (bn - ndirect) nindirect) [
        | yes d ↦
            let e1 : ltb (bn - ndirect) nindirect ≡ true = ground arith in
            rw (e, e1)
              (λ (l, l'). rw (inode_entry-found ndirect ip s l, block_entry-found _ _ s l'))
        | no nd1 ↦
            let e1 : ltb (bn - ndirect) nindirect ≡ false = ground arith in
            elim (dec_lt (bn - ndirect - nindirect) ndindirect) [
              | yes d ↦
                  let e2 : ltb (bn - ndirect - nindirect) ndindirect ≡ true = ground arith in
                  rw (e, e1, e2)
                    (λ (l, (l1, l2)). rw (
                      inode_entry-found (ndirect + 1) ip s l,
                      block_entry-found _ _ s l1,
                      block_entry-found _ _ s l2,
                    ))
              | no nd2 ↦
                  let e2 : ltb (bn - ndirect - nindirect) ndindirect ≡ false = ground arith in
                  let e3 : ltb (bn - ndirect - nindirect - ndindirect) ntindirect ≡ true =
                    ground arith in
                  rw (e, e1, e2, e3)
                    (λ (l, (l1, (l2, l3))). rw (
                      inode_entry-found (ndirect + 2) ip s l,
                      block_entry-found _ _ s l1,
                      block_entry-found _ _ s l2,
                      block_entry-found _ _ s l3,
                    ))
            ]
      ]
]
