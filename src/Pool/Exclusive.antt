-- ===== src/Pool/Exclusive.antt =====
-- One holder at a time.
use libstutter.Common.{
  ◌≡◌, ◌≢◌, sym, ap, ◌∙◌, Bool-cases, inl, inr, true, List, [], ◌∷◌, All, arith,
}
use libstutter.Common.Int.{ℤ, eqb_ℤ, eqb_ℤ→eq}
use libstutter.IntSet.{contains}
use libstutter.Os.{Os}
use libstutter.Pool.{SocketPool}
use libstutter.Pool.Invariant.{IsPool}
use libstutter.Pool.Ledger.{
  Status, unknown, free, lent, Marks, Ledger, ledger, Call, put_back, forget, ask, Answer, Allowed,
  returned, not_lent, forgotten, reused, opened, refused, History, call, calls,
}
use libstutter.Pool.Refinement.{Fresh, calls-History, ledger-lent}

-- A call that does not give `fd` back.
abbrev pub Keeps : {W : Type 0} → ℤ → Call W → Type 0
Keeps fd (put_back i) = i ≢ fd
Keeps fd (forget i) = i ≢ fd
Keeps fd (ask w out_fd) = Unit {0}

-- An answer that does not hand `fd` out.
abbrev pub Spares : {W : Type 0} → ℤ → Call W × Answer → Type 0
Spares fd (ask w out_fd, a) = a.success ≡ true → a.fd ≢ fd
Spares fd (_, a) = Unit {0}

Marks-other :
    (old new : Ledger) (i fd : ℤ) (s : Status) → i ≢ fd → Marks old i s new → new fd ≡ old fd
Marks-other old new i fd s ne m = elim (Bool-cases (eqb_ℤ fd i)) [
  | inl e ↦ absurd (ne (sym (eqb_ℤ→eq fd i e)))
  | inr e ↦ ground (arith, m fd)
]

Marks-lent : (old new : Ledger) (i fd : ℤ) → old fd ≡ lent → Marks old i lent new → new fd ≡ lent
Marks-lent old new i fd l m = ground (arith, m fd)

-- Descriptors with other entries are others.
apart : (old : Ledger) (i fd : ℤ) → old fd ≡ lent → old i ≢ lent → i ≢ fd
apart old i fd l ne e = ne (ap old e ∙ l)

free_not_lent : (s : Status) → s ≡ free → s ≢ lent
free_not_lent s e h = cc

Allowed-Spares :
    {W : Type 0} {old new : Ledger} {c : Call W} {a : Answer} (fd : ℤ)
    → old fd ≡ lent
    → Keeps fd c
    → Allowed old new c a
    → Spares fd (c, a) × (new fd ≡ lent)
Allowed-Spares fd h k (returned i l m) = (tt, Marks-other _ _ i fd free k m ∙ h)
Allowed-Spares fd h k (not_lent i l m) = (tt, m fd ∙ h)
Allowed-Spares fd h k (forgotten i m) = (tt, Marks-other _ _ i fd unknown k m ∙ h)
Allowed-Spares {old = old} fd h k (reused w o i f m) =
    ((λ e. apart old i fd h (free_not_lent (old i) f)), Marks-lent old _ i fd h m)
Allowed-Spares {old = old} fd h k (opened w o i n l m) =
    ((λ e. apart old i fd h l), Marks-lent old _ i fd h m)
Allowed-Spares fd h k (refused w o n m) = ((λ e. cc), m fd ∙ h)

History-Spares :
    {W : Type 0} (first last : Ledger) (h : List (Call W × Answer)) (fd : ℤ)
    → first fd ≡ lent
    → All (λ x. Keeps fd x.0) h
    → History first h last
    → All (Spares fd) h × (last fd ≡ lent)
History-Spares first last [] fd l k same = (tt, same fd ∙ l)
History-Spares first last ((c, a) ∷ h) fd l k (next, allowed, more) =
    let (here, still) = Allowed-Spares fd l k.0 allowed in
    let (there, at_end) = History-Spares next last h fd still k.1 more in ((here, there), at_end)

module _ (os : Os) where
  open os use {World}

  Keeps-calls :
      (p : SocketPool) (cs : List (Call World)) (fd : ℤ)
      → All (Keeps fd) cs
      → All (λ x. Keeps fd x.0) (calls os p cs).1
  unfolding calls
  Keeps-calls p [] fd k = tt
  Keeps-calls p (c ∷ cs) fd k = (k.0, Keeps-calls (call os p c).0 cs fd k.1)

  -- A descriptor that is taken in a well-formed pool stays with its holder: whatever is called until
  -- the holder gives it back by put() or del(), no get() hands it out, and it is taken at the end. It
  -- is supposed that socket() does not return a descriptor that is lent at the time.
  pub calls-Spares :
      (p : SocketPool) (cs : List (Call World)) (fd : ℤ)
      → IsPool p
      → Fresh os p cs
      → contains fd p.taken ≡ true
      → All (Keeps fd) cs
      → All (Spares fd) (calls os p cs).1 × (ledger (calls os p cs).0 fd ≡ lent)
  calls-Spares p cs fd v fresh held k =
      History-Spares (ledger p) (ledger (calls os p cs).0) (calls os p cs).1 fd
        (ledger-lent p fd held) (Keeps-calls p cs fd k) (calls-History os p cs fresh v)
