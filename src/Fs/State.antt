-- ===== src/Fs/State.antt =====
-- The state of project3/fs.c: the super block, and what `bread` shows of each block of the disk.
-- `logged` are the blocks handed to `log_write`, newest first. There is one device, so `dev` is left
-- out, and so are the locks. `brelse` changes nothing here.
use ele3021_os.Common.{ℕ, ◌≡◌, refl, List, ◌∷◌, update}
use ele3021_os.Fs.Block.{Block}

-- the fields of `struct superblock` that fs.c reads
pub record Superblock : Type 0 where
  pub size : ℕ
  pub ninodes : ℕ
  pub inodestart : ℕ
  pub bmapstart : ℕ

pub record Fs : Type 0 where
  pub sb : Superblock
  pub data' : ℕ → Block
  pub logged : List ℕ

pub data Result (A : Type 0) : Type 0 where
  ok : A → Result A
  panic : Result A

infixl 5 ◌>>=◌
abbrev pub ◌>>=◌ : {A B : Type 0} → Result A → (A → Result B) → Result B
ok a >>= f = f a
panic >>= f = panic

pub bind-cong :
    {A B : Type 0} (r : Result A) (f g : A → Result B)
    → ((a : A) → f a ≡ g a)
    → (r >>= f) ≡ (r >>= g)
bind-cong (ok a) f g h = h a
bind-cong panic f g h = refl

-- the data of a block changed in its buffer, and `log_write`
abbrev pub write : ℕ → Block → Fs → Fs
write b v s = record s { data' = update s.data' b v; logged = b ∷ s.logged }
