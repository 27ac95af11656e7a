-- ===== src/Files/Balance/Calls.antt =====
-- The calls of project3/sysfile.c as steps, without sys_exec and sys_sync.
use ele3021_os.Common.{ℕ, ◌≡◌, refl, List, Bool, Option, some, subst}
use ele3021_os.Fs.State.{Result, ok}
use ele3021_os.Fs.Inode.{Inode}
use ele3021_os.Fs.Content.{Stat}
use ele3021_os.Pipe.{Written, Read}
use ele3021_os.Fs.Cache.Counts.{Post}
use ele3021_os.Files.State.{World}
use ele3021_os.Files.Descriptor.{sys_dup, sys_close, sys_fstat, sys_pipe, sys_read, sys_write}
use ele3021_os.Files.Create.{sys_slink, sys_mkdir, sys_mknod, sys_chdir}
use ele3021_os.Files.Link.{sys_link, sys_unlink}
use ele3021_os.Files.Open.{sys_open, sys_lsopen}
use ele3021_os.Files.Balance.Rules.{Ends}
use ele3021_os.Files.Balance.Creating.{
  sys_slink-Ends, sys_mkdir-Ends, sys_mknod-Ends, sys_chdir-Ends,
}
use ele3021_os.Files.Balance.Linking.{sys_link-Ends, sys_unlink-Ends}
use ele3021_os.Files.Balance.Opening.{
  sys_dup-Ends, sys_close-Ends, sys_fstat-Ends, sys_pipe-Ends, sys_read-Ends, sys_write-Ends,
  sys_open-Returns, sys_lsopen-Returns,
}

-- A system call that returns, with or without success, with the fetched arguments; `killed` is the flag of
-- the process, and `rd` and `wd` are what devices do.
pub data Syscall (killed : Bool) (rd : ℕ → Option (Inode → ℕ → Option (List ℕ)))
    (wd : ℕ → Option (Inode → List ℕ → ℕ → Option ℕ)) (w : World) : World → Type 0 where
  dups :
      (fd : ℕ) (r : Option ℕ) (w' : World) → sys_dup fd w ≡ ok (r, w') → Syscall killed rd wd w w'
  closes :
      (fd : ℕ) (r : Bool) (w' : World) → sys_close fd w ≡ ok (r, w') → Syscall killed rd wd w w'
  stats :
      (fd : ℕ) (r : Option Stat) (w' : World)
      → sys_fstat fd w ≡ ok (r, w')
      → Syscall killed rd wd w w'
  reads :
      (fd n : ℕ) (r : Read) (w' : World)
      → sys_read killed rd fd n w ≡ ok (r, w')
      → Syscall killed rd wd w w'
  writes :
      (fd : ℕ) (src : List ℕ) (r : Written) (w' : World)
      → sys_write killed wd fd src w ≡ ok (r, w')
      → Syscall killed rd wd w w'
  slinks :
      (a : Option (List ℕ × List ℕ)) (r : Bool) (w' : World)
      → sys_slink rd wd a w ≡ ok (r, w')
      → Syscall killed rd wd w w'
  links :
      (a : Option (List ℕ × List ℕ)) (r : Bool) (w' : World)
      → sys_link rd wd a w ≡ ok (r, w')
      → Syscall killed rd wd w w'
  unlinks :
      (a : Option (List ℕ)) (r : Bool) (w' : World)
      → sys_unlink rd wd a w ≡ ok (r, w')
      → Syscall killed rd wd w w'
  mkdirs :
      (a : Option (List ℕ)) (r : Bool) (w' : World)
      → sys_mkdir rd wd a w ≡ ok (r, w')
      → Syscall killed rd wd w w'
  mknods :
      (a : Option (List ℕ × ℕ × ℕ)) (r : Bool) (w' : World)
      → sys_mknod rd wd a w ≡ ok (r, w')
      → Syscall killed rd wd w w'
  chdirs :
      (a : Option (List ℕ)) (r : Bool) (w' : World)
      → sys_chdir rd wd a w ≡ ok (r, w')
      → Syscall killed rd wd w w'
  pipes :
      (q : ℕ) (memory : Option (ℕ → ℕ)) (r : Option (ℕ × ℕ)) (w' : World)
      → sys_pipe q memory w ≡ ok (r, w')
      → Syscall killed rd wd w w'
  opens :
      (fuel : ℕ) (a : Option (List ℕ × ℕ)) (r : Option ℕ) (w' : World)
      → sys_open rd wd fuel a w ≡ ok (some r, w')
      → Syscall killed rd wd w w'
  lsopens :
      (a : Option (List ℕ × ℕ)) (r : Option ℕ) (w' : World)
      → sys_lsopen rd wd a w ≡ ok (some r, w')
      → Syscall killed rd wd w w'

at_end :
    {A : Type 0} (n : ℕ) (r : Result (A × World)) (a : A) (w' : World)
    → r ≡ ok (a, w')
    → Ends n r
    → w'.ops ≡ n
at_end {A} n r a w' e h = subst (Post (λ (x : A × World). x.1.ops ≡ n)) e h.at

at_return :
    (n : ℕ) (r : Result (Option (Option ℕ) × World)) (a : Option ℕ) (w' : World)
    → r ≡ ok (some a, w')
    → Post (λ (x : Option (Option ℕ) × World). (b : Option ℕ) → x.0 ≡ some b → x.1.ops ≡ n) r
    → w'.ops ≡ n
at_return n r a w' e h =
    subst (Post (λ (x : Option (Option ℕ) × World). (b : Option ℕ) → x.0 ≡ some b → x.1.ops ≡ n)) e
      h a refl

-- A call of sys_dup, sys_close, sys_fstat, sys_read, sys_write, sys_slink, sys_link, sys_unlink,
-- sys_mkdir, sys_mknod, sys_chdir, sys_pipe, sys_open or sys_lsopen that returns, on whatever path through
-- it, has ended each operation of the log that it began: as many are outstanding as before it.
pub Syscall-ops :
    (killed : Bool) (rd : ℕ → Option (Inode → ℕ → Option (List ℕ)))
    (wd : ℕ → Option (Inode → List ℕ → ℕ → Option ℕ)) {w w' : World}
    → Syscall killed rd wd w w'
    → w'.ops ≡ w.ops
Syscall-ops killed rd wd {w} (Syscall.dups fd r w' e) =
    at_end w.ops (sys_dup fd w) r w' e (sys_dup-Ends w.ops fd w refl)
Syscall-ops killed rd wd {w} (Syscall.closes fd r w' e) =
    at_end w.ops (sys_close fd w) r w' e (sys_close-Ends w.ops fd w refl)
Syscall-ops killed rd wd {w} (Syscall.stats fd r w' e) =
    at_end w.ops (sys_fstat fd w) r w' e (sys_fstat-Ends w.ops fd w refl)
Syscall-ops killed rd wd {w} (Syscall.reads fd n r w' e) =
    at_end w.ops (sys_read killed rd fd n w) r w' e (sys_read-Ends killed rd w.ops fd n w refl)
Syscall-ops killed rd wd {w} (Syscall.writes fd src r w' e) =
    at_end w.ops (sys_write killed wd fd src w) r w' e
      (sys_write-Ends killed wd w.ops fd src w refl)
Syscall-ops killed rd wd {w} (Syscall.slinks a r w' e) =
    at_end w.ops (sys_slink rd wd a w) r w' e (sys_slink-Ends rd wd w.ops a w refl)
Syscall-ops killed rd wd {w} (Syscall.links a r w' e) =
    at_end w.ops (sys_link rd wd a w) r w' e (sys_link-Ends rd wd w.ops a w refl)
Syscall-ops killed rd wd {w} (Syscall.unlinks a r w' e) =
    at_end w.ops (sys_unlink rd wd a w) r w' e (sys_unlink-Ends rd wd w.ops a w refl)
Syscall-ops killed rd wd {w} (Syscall.mkdirs a r w' e) =
    at_end w.ops (sys_mkdir rd wd a w) r w' e (sys_mkdir-Ends rd wd w.ops a w refl)
Syscall-ops killed rd wd {w} (Syscall.mknods a r w' e) =
    at_end w.ops (sys_mknod rd wd a w) r w' e (sys_mknod-Ends rd wd w.ops a w refl)
Syscall-ops killed rd wd {w} (Syscall.chdirs a r w' e) =
    at_end w.ops (sys_chdir rd wd a w) r w' e (sys_chdir-Ends rd wd w.ops a w refl)
Syscall-ops killed rd wd {w} (Syscall.pipes q memory r w' e) =
    at_end w.ops (sys_pipe q memory w) r w' e (sys_pipe-Ends w.ops q memory w refl)
Syscall-ops killed rd wd {w} (Syscall.opens fuel a r w' e) =
    at_return w.ops (sys_open rd wd fuel a w) r w' e (sys_open-Returns rd wd w.ops fuel a w refl)
Syscall-ops killed rd wd {w} (Syscall.lsopens a r w' e) =
    at_return w.ops (sys_lsopen rd wd a w) r w' e (sys_lsopen-Returns rd wd w.ops a w refl)
