-- ===== src/Files/Balance/Rules.antt =====
-- How many operations of the log a piece of a system call leaves open, one rule for each way to build
-- a piece.
use ele3021_os.Common.{
  ℕ, suc, ◌≡◌, refl, arith, Bool, true, false, Option, none, some, if◌then◌else◌,
}
use ele3021_os.Fs.State.{Result, ok, panic, ◌>>=◌}
use ele3021_os.Fs.Cache.{Icache}
use ele3021_os.Fs.Cache.Counts.{Post, bind-Post}
use ele3021_os.Files.State.{World, on_cache, in_cache}

-- `n` operations are open where a piece ends, if it does not panic
pub record Ends {A : Type 0} (n : ℕ) (r : Result (A × World)) : Type 0 where
  pub at : Post (λ (x : A × World). x.1.ops ≡ n) r

pub record Leaves (n : ℕ) (r : Result World) : Type 0 where
  pub at : Post (λ (w : World). w.ops ≡ n) r

ends : {B : Type 0} (r : Result B) → Post (λ _. Unit {0}) r
ends (ok b) = tt
ends panic = tt

pub in_cache-Leaves :
    (f : Icache → Result Icache) (w : World) {n : ℕ} → w.ops ≡ n → Leaves n (in_cache f w)
unfolding in_cache
in_cache-Leaves f w {n} h = record {
  at =
      bind-Post (λ _. Unit {0}) (λ (x : World). x.ops ≡ n) (f w.icache)
        (λ c. ok (record w { icache = c })) (ends (f w.icache)) (λ c _. h);
}

pub Leaves-ok : (w : World) (n : ℕ) → w.ops ≡ n → Leaves n (ok w)
Leaves-ok w n h = record { at = h }

pub Leaves-panic : (n : ℕ) → Leaves n panic
Leaves-panic n = record { at = tt }

pub Leaves-if :
    (n : ℕ) (b : Bool) (x y : Result World)
    → Leaves n x
    → Leaves n y
    → Leaves n (if b then x else y)
Leaves-if n true x y hx hy = hx
Leaves-if n false x y hx hy = hy

module _ {A : Type 0} where
  pub on_cache-Ends :
      (f : Icache → Result (A × Icache)) (w : World) {n : ℕ} → w.ops ≡ n → Ends n (on_cache f w)
  unfolding on_cache
  on_cache-Ends f w {n} h = record {
    at =
        bind-Post (λ _. Unit {0}) (λ (x : A × World). x.1.ops ≡ n) (f w.icache)
          (λ (x : A × Icache). ok (x.0, record w { icache = x.1 })) (ends (f w.icache)) (λ x _. h);
  }

  pub Ends-ok : (a : A) (w : World) (n : ℕ) → w.ops ≡ n → Ends n (ok (a, w))
  Ends-ok a w n h = record { at = h }

  pub Ends-panic : (n : ℕ) → Ends {A = A} n panic
  Ends-panic n = record { at = tt }

  pub Ends-if :
      (n : ℕ) (b : Bool) (x y : Result (A × World))
      → Ends n x
      → Ends n y
      → Ends n (if b then x else y)
  Ends-if n true x y hx hy = hx
  Ends-if n false x y hx hy = hy

  pub Ends-option :
      {B : Type 0} (n : ℕ) (o : Option B) (x : Result (A × World)) (f : B → Result (A × World))
      → Ends n x
      → ((b : B) → Ends n (f b))
      → Ends n (elim o [ none ↦ x | some b ↦ f b ])
  Ends-option n none x f hx hf = hx
  Ends-option n (some b) x f hx hf = hf b

  -- a step that leaves the operations as they are, and what follows it
  module _ {B : Type 0} (m n : ℕ) where
    pub Ends-bind :
        (r : Result (B × World)) (f : B × World → Result (A × World))
        → Ends m r
        → ((b : B) (w : World) → w.ops ≡ m → Ends n (f (b, w)))
        → Ends n (r >>= f)
    Ends-bind r f h g = record {
      at =
          bind-Post (λ (x : B × World). x.1.ops ≡ m) (λ (x : A × World). x.1.ops ≡ n) r f h.at
            (λ x e. (g x.0 x.1 e).at);
    }

  pub Ends-then :
      (m n : ℕ) (r : Result World) (f : World → Result (A × World))
      → Leaves m r
      → ((w : World) → w.ops ≡ m → Ends n (f w))
      → Ends n (r >>= f)
  Ends-then m n r f h g = record {
    at =
        bind-Post (λ (w : World). w.ops ≡ m) (λ (x : A × World). x.1.ops ≡ n) r f h.at
          (λ w e. (g w e).at);
  }

pub Leaves-bind :
    {B : Type 0} (n : ℕ) (r : Result (B × World)) (f : B × World → Result World)
    → Ends n r
    → ((b : B) (w : World) → w.ops ≡ n → Leaves n (f (b, w)))
    → Leaves n (r >>= f)
Leaves-bind {B} n r f h g = record {
  at =
      bind-Post (λ (x : B × World). x.1.ops ≡ n) (λ (w : World). w.ops ≡ n) r f h.at
        (λ x e. (g x.0 x.1 e).at);
}

pub Leaves-then :
    (n : ℕ) (r : Result World) (f : World → Result World)
    → Leaves n r
    → ((w : World) → w.ops ≡ n → Leaves n (f w))
    → Leaves n (r >>= f)
Leaves-then n r f h g = record {
  at = bind-Post (λ (w : World). w.ops ≡ n) (λ (w : World). w.ops ≡ n) r f h.at (λ w e. (g w e).at);
}

-- for the inner functions, which leave the operations as they are
pub Ends-bind-inner :
    {A B : Type 0} (n : ℕ) (r : Result (B × World)) (f : B × World → Result (A × World))
    → Ends n r
    → ((b : B) (w : World) → w.ops ≡ n → Ends n (f (b, w)))
    → Ends n (r >>= f)
Ends-bind-inner n r f h g = Ends-bind n n r f h g

pub Ends-then-inner :
    {A : Type 0} (n : ℕ) (r : Result World) (f : World → Result (A × World))
    → Leaves n r
    → ((w : World) → w.ops ≡ n → Ends n (f w))
    → Ends n (r >>= f)
Ends-then-inner n r f h g = Ends-then n n r f h g

-- for the system calls, which end the operation that they are in
pub Ends-bind-outer :
    {A B : Type 0} (n : ℕ) (r : Result (B × World)) (f : B × World → Result (A × World))
    → Ends (suc n) r
    → ((b : B) (w : World) → w.ops ≡ suc n → Ends n (f (b, w)))
    → Ends n (r >>= f)
Ends-bind-outer n r f h g = Ends-bind (suc n) n r f h g

pub Ends-then-outer :
    {A : Type 0} (n : ℕ) (r : Result World) (f : World → Result (A × World))
    → Leaves (suc n) r
    → ((w : World) → w.ops ≡ suc n → Ends n (f w))
    → Ends n (r >>= f)
Ends-then-outer n r f h g = Ends-then (suc n) n r f h g

-- a step below the world
pub Ends-any :
    {A B : Type 0} (n : ℕ) (r : Result B) (f : B → Result (A × World))
    → ((b : B) → Ends n (f b))
    → Ends n (r >>= f)
Ends-any {A} {B} n r f g = record {
  at = bind-Post (λ _. Unit {0}) (λ (x : A × World). x.1.ops ≡ n) r f (ends r) (λ b _. (g b).at);
}

pub ruleset leaves_rules =
    (Leaves-ok, Leaves-panic, Leaves-if, Leaves-bind, Leaves-then, in_cache-Leaves, on_cache-Ends)

pub ruleset inner_rules = (
  arith, Ends-ok, Ends-panic, Ends-if, Ends-option, Ends-bind-inner, Ends-then-inner, leaves_rules,
)

pub ruleset outer_rules = (
  arith, Ends-ok, Ends-panic, Ends-if, Ends-option, Ends-bind-outer, Ends-then-outer, leaves_rules,
)
