-- ===== src/Maintenance/Hoare.antt =====
-- Hoare triples for actions under faults: what holds of the disk after a result, after an error,
-- and when the process has died. No assertion reads the fault script, so a triple speaks of every
-- script.
use holodex.Prelude.{List, [], ◌∷◌}
use holodex.Maintenance.Disk.{
  Disk, World, Fault, works, fails, dies, Error, io, Outcome, done, err, crashed, M, then_run,
  ◌>>=◌, pure, raise, strike, effect, Reply, good, bad, catch, try,
}

abbrev pub Assert : Type 1
Assert = Disk → Type 0

abbrev pub Ends : {A : Type 0} → (A → Assert) → (Error → Assert) → Assert → Outcome A → Assert
Ends Q E C (done a) = Q a
Ends Q E C (err e) = E e
Ends Q E C crashed = C

-- From a disk where `P` holds, whatever faults the script brings.
pub record Triple {A : Type 0} (P : Assert) (m : M A) (Q : A → Assert) (E : Error → Assert)
    (C : Assert) : Type 0 where
  pub run : (w : World) → P w.disk → Ends Q E C (m w).0 (m w).1.disk

strike-Ends :
    {A : Type 0} (P : Assert) (Q : A → Assert) (E : Error → Assert) (C : Assert)
    (act : Disk → Outcome A × Disk)
    → ((d : Disk) → P d → Ends Q E C (act d).0 (act d).1)
    → ((d : Disk) → P d → E io d)
    → ((d : Disk) → P d → C d)
    → (s : List Fault) (d : Disk) → P d
    → Ends Q E C (strike s act d).0 (strike s act d).1.disk
unfolding strike
strike-Ends P Q E C act step fail die [] d p = step d p
strike-Ends P Q E C act step fail die (works ∷ s) d p = step d p
strike-Ends P Q E C act step fail die (fails ∷ s) d p = fail d p
strike-Ends P Q E C act step fail die (dies ∷ s) d p = die d p

then_run-Ends :
    {A B : Type 0} (Q : A → Assert) (R : B → Assert) (E : Error → Assert) (C : Assert) (f : A → M B)
    (o : Outcome A) (w : World)
    → ((a : A) → Triple (Q a) (f a) R E C)
    → Ends Q E C o w.disk
    → Ends R E C (then_run o f w).0 (then_run o f w).1.disk
then_run-Ends Q R E C f (done a) w k h = (k a).run w h
then_run-Ends Q R E C f (err e) w k h = h
then_run-Ends Q R E C f crashed w k h = h

catch-Ends :
    {A : Type 0} (Q : Reply A → Assert) (E : Error → Assert) (C : Assert) (o : Outcome A)
    (w : World)
    → Ends (λ a. Q (good a)) (λ e. Q (bad e)) C o w.disk
    → Ends Q E C (catch o w).0 (catch o w).1.disk
catch-Ends Q E C (done a) w h = h
catch-Ends Q E C (err e) w h = h
catch-Ends Q E C crashed w h = h

widen-Ends :
    {A : Type 0} (P : Assert) (Q R : A → Assert) (E : Error → Assert) (C : Assert)
    → ((a : A) (d : Disk) → Q a d → R a d)
    → ((d : Disk) → P d → C d)
    → ((e : Error) (d : Disk) → P d → E e d)
    → (o : Outcome A) (d : Disk) → Ends Q (λ _. P) P o d
    → Ends R E C o d
widen-Ends P Q R E C q c e (done a) d h = q a d h
widen-Ends P Q R E C q c e (err x) d h = e x d h
widen-Ends P Q R E C q c e crashed d h = c d h

relax-Ends :
    {A : Type 0} (Q R : A → Assert) (E F : Error → Assert) (C D : Assert)
    → ((a : A) (d : Disk) → Q a d → R a d)
    → ((e : Error) (d : Disk) → E e d → F e d)
    → ((d : Disk) → C d → D d)
    → (o : Outcome A) (d : Disk) → Ends Q E C o d
    → Ends R F D o d
relax-Ends Q R E F C D q e c (done a) d h = q a d h
relax-Ends Q R E F C D q e c (err x) d h = e x d h
relax-Ends Q R E F C D q e c crashed d h = c d h

-- The rule of consequence for what holds afterwards.
pub Triple-widen :
    {A : Type 0} {P : Assert} {Q R : A → Assert} {E F : Error → Assert} {C D : Assert} (m : M A)
    → ((a : A) (d : Disk) → Q a d → R a d)
    → ((e : Error) (d : Disk) → E e d → F e d)
    → ((d : Disk) → C d → D d)
    → Triple P m Q E C
    → Triple P m R F D
Triple-widen {Q = Q} {R = R} {E = E} {F = F} {C = C} {D = D} m q e c t = record {
  run = λ w p. relax-Ends Q R E F C D q e c (m w).0 (m w).1.disk (t.run w p);
}

abbrev pub on_reply : {A : Type 0} → (A → Assert) → Assert → Reply A → Assert
on_reply Q P (good a) = Q a
on_reply Q P (bad e) = P

module _ {A : Type 0} {P : Assert} {Q : A → Assert} {E : Error → Assert} {C : Assert} where
  pub Triple-pure : (a : A) → ((d : Disk) → P d → Q a d) → Triple P (pure a) Q E C
  unfolding pure
  Triple-pure a h = record { run = λ w p. h w.disk p }

  pub Triple-raise : (e : Error) → ((d : Disk) → P d → E e d) → Triple P (raise e) Q E C
  unfolding raise
  Triple-raise e h = record { run = λ w p. h w.disk p }

  pub Triple-effect :
      (act : Disk → Outcome A × Disk)
      → ((d : Disk) → P d → Ends Q E C (act d).0 (act d).1)
      → ((d : Disk) → P d → E io d)
      → ((d : Disk) → P d → C d)
      → Triple P (effect act) Q E C
  unfolding effect
  Triple-effect act step fail die = record {
    run = λ w p. strike-Ends P Q E C act step fail die w.script w.disk p;
  }

  pub Triple-weaken :
      {R : Assert} (m : M A) → ((d : Disk) → R d → P d) → Triple P m Q E C → Triple R m Q E C
  Triple-weaken m h t = record { run = λ w r. t.run w (h w.disk r) }

-- A step whose failures leave the disk as it was, where that disk satisfies `G`.
module _ {A : Type 0} {P G : Assert} {Q : A → Assert} where
  pub Triple-guarded :
      (m : M A) → ((d : Disk) → P d → G d) → Triple P m Q (λ _. P) P → Triple P m Q (λ _. G) G
  Triple-guarded m g t = record {
    run = λ w p.
        widen-Ends P Q Q (λ _. G) G (λ _ _ q. q) g (λ _ d h. g d h) (m w).0 (m w).1.disk
          (t.run w p);
  }

  pub Triple-last :
      (m : M A)
      → ((d : Disk) → P d → G d)
      → ((a : A) (d : Disk) → Q a d → G d)
      → Triple P m Q (λ _. P) P
      → Triple P m (λ _. G) (λ _. G) G
  Triple-last m g q t = record {
    run = λ w p.
        widen-Ends P Q (λ _. G) (λ _. G) G q g (λ _ d h. g d h) (m w).0 (m w).1.disk (t.run w p);
  }

module _ {A B : Type 0} {P : Assert} {Q : A → Assert} {R : B → Assert} {E : Error → Assert}
    {C : Assert} where
  pub Triple-bind :
      (m : M A) (f : A → M B)
      → Triple P m Q E C
      → ((a : A) → Triple (Q a) (f a) R E C)
      → Triple P (m >>= f) R E C
  unfolding ◌>>=◌
  Triple-bind m f t k = record {
    run = λ w p. then_run-Ends Q R E C f (m w).0 (m w).1 k (t.run w p);
  }

module _ {A : Type 0} {P : Assert} {Q : Reply A → Assert} {E : Error → Assert} {C : Assert} where
  pub Triple-try :
      (m : M A) → Triple P m (λ a. Q (good a)) (λ e. Q (bad e)) C → Triple P (try m) Q E C
  unfolding try
  Triple-try m t = record { run = λ w p. catch-Ends Q E C (m w).0 (m w).1 (t.run w p) }

-- The caller looks at the error, and the failed step left the disk as it was.
pub Triple-tried :
    {A : Type 0} {P G : Assert} {Q : A → Assert} (m : M A)
    → ((d : Disk) → P d → G d)
    → Triple P m Q (λ _. P) P
    → Triple P (try m) (on_reply Q P) (λ _. G) G
Triple-tried {P = P} {G = G} {Q = Q} m g t = Triple-try m (record {
  run = λ w p.
      widen-Ends P Q Q (λ _. P) G (λ _ _ q. q) g (λ _ _ h. h) (m w).0 (m w).1.disk (t.run w p);
})

-- A fact that the assertion shows, whatever the disk.
pub Triple-given :
    {A X : Type 0} {P : Assert} {Q : A → Assert} {E : Error → Assert} {C : Assert} (m : M A)
    → ((d : Disk) → P d → X)
    → (X → Triple P m Q E C)
    → Triple P m Q E C
Triple-given m x t = record { run = λ w p. (t (x w.disk p)).run w p }
