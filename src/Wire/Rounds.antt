-- ===== src/Wire/Rounds.antt =====
-- The reads of exec() and of read_reply, and how they divide a message.
use libstutter.Common.{ℕ, ◌≡◌, ◌≢◌, refl, sym, ap, List, [], ◌∷◌, ◌++◌, some, All, append-nil}
use mathlib.Core.List.{flatten}
use mathlib.Core.Path.{subst}
use libstutter.Common.Int.{ℤ}
use libstutter.Common.Bytes.{Bytes}
use libstutter.Os.{Os, Read}
use libstutter.Io.{Strategy}
use libstutter.Body.{Body}
use libstutter.Body.Content.{FileLaws}
use libstutter.Message.Laws.{Works}
use libstutter.Parser.{
  Parser, Head, Event, on_url, on_header_field, on_header_value, on_body, on_headers_complete,
  on_message_complete, msg, run,
}
use libstutter.Connection.Exec.{IsPartial}
use libstutter.Wire.Content.{Kept, set_body_self}
use libstutter.Wire.Served.{Ends}
use libstutter.Wire.Reads.{
  with_body, Outline, outline, outline_event, Shows, run-Shows, Quiet, Quiet-Shows, Shows-same,
}

-- The last read brings a call.
abbrev pub LastBrings : List (List Event) → Type 0
LastBrings [] = ⊥
LastBrings (es ∷ []) = es ≢ []
LastBrings (es ∷ fs ∷ rounds) = LastBrings (fs ∷ rounds)

-- The reads that bring the calls `es`, some of them none.
pub record Divides (rounds : List (List Event)) (es : List Event) : Type 0 where
  pub joined : flatten rounds ≡ es
  pub last : LastBrings rounds

-- The last read completes the message, and those before it do not.
abbrev pub Split : Head → List (List Event) → Type 0
Split h [] = ⊥
Split h (es ∷ []) = Ends h es
Split h (es ∷ fs ∷ rounds) = All IsPartial es × Split h (fs ∷ rounds)

Ends-append :
    (h : Head) (es fs : List Event) → fs ≢ [] → Ends h (es ++ fs) → All IsPartial es × Ends h fs
Ends-append h [] fs more e = (tt, e)
Ends-append h (on_message_complete k ∷ []) fs more (same, last) = absurd (more last)
Ends-append h (on_message_complete k ∷ e' ∷ es) fs more (same, last) = cc
Ends-append h (on_url at ∷ es) fs more e =
    let (partial, rest) = Ends-append h es fs more e in ((tt, partial), rest)
Ends-append h (on_header_field at ∷ es) fs more e =
    let (partial, rest) = Ends-append h es fs more e in ((tt, partial), rest)
Ends-append h (on_header_value at ∷ es) fs more e =
    let (partial, rest) = Ends-append h es fs more e in ((tt, partial), rest)
Ends-append h (on_body at ∷ es) fs more e =
    let (partial, rest) = Ends-append h es fs more e in ((tt, partial), rest)
Ends-append h (on_headers_complete ∷ es) fs more e =
    let (partial, rest) = Ends-append h es fs more e in ((tt, partial), rest)

append_brings : (es fs : List Event) → fs ≢ [] → es ++ fs ≢ []
append_brings [] fs more = more
append_brings (e ∷ es) fs more = λ k. cc

flatten_brings : (rounds : List (List Event)) → LastBrings rounds → flatten rounds ≢ []
unfolding flatten
flatten_brings [] l = absurd l
flatten_brings (es ∷ []) l = subst (λ fs. fs ≢ []) (sym (append-nil es)) l
flatten_brings (es ∷ fs ∷ rounds) l =
    append_brings es (flatten (fs ∷ rounds)) (flatten_brings (fs ∷ rounds) l)

pub flatten-Split :
    (h : Head) (rounds : List (List Event))
    → LastBrings rounds
    → Ends h (flatten rounds)
    → Split h rounds
unfolding flatten
flatten-Split h [] l e = l
flatten-Split h (es ∷ []) l e = subst (Ends h) (append-nil es) e
flatten-Split h (es ∷ fs ∷ rounds) l e =
    let (partial, rest) =
      Ends-append h es (flatten (fs ∷ rounds)) (flatten_brings (fs ∷ rounds) l) e in
    (partial, flatten-Split h (fs ∷ rounds) l rest)

outline-append :
    (s : Outline) (es fs : List Event) → outline s (es ++ fs) ≡ outline (outline s es) fs
unfolding outline
outline-append s [] fs = refl
outline-append s (e ∷ es) fs = outline-append (outline_event s e) es fs

abbrev pub HasData : Read → Type 0
HasData r = (b : ℕ) × (bytes : Bytes) × (r ≡ some (b ∷ bytes))

module _ (os : Os) (io : Strategy os) where
  open os use {World}

  -- Reads of a descriptor, and the parser on what each of them brings.
  unfoldable pub rounds_run : ℤ → ℕ → World → Parser → List (List Event) → World × Parser
  rounds_run fd size w p [] = (w, p)
  rounds_run fd size w p (es ∷ rounds) =
      let (w', p') = run os (io.safe_read w fd size).0 p es in rounds_run fd size w' p' rounds

module _ (os : Os) (io : Strategy os) (laws : FileLaws os) (works : Works os) where
  open os use {World}

  -- A read that finds a byte or more; what goes on before it ends leaves the file of the body that is
  -- being received alone, if there is one.
  abbrev pub Finds : World → ℤ → ℕ → Parser → Type 0
  Finds w fd size p =
      HasData (io.safe_read w fd size).1
      × Quiet os laws works w (io.safe_read w fd size).0 (msg p.target).body

  abbrev pub Readable : ℤ → ℕ → World → Parser → List (List Event) → Type 0
  Readable fd size w p [] = Unit {0}
  Readable fd size w p (es ∷ rounds) =
      Finds w fd size p
      × (let (w', p') = run os (io.safe_read w fd size).0 p es in Readable fd size w' p' rounds)

  rounds_run-Shows :
      (fd : ℤ) (size : ℕ) (w : World) (p : Parser) (rounds : List (List Event)) (s : Outline)
      → Readable fd size w p rounds
      → Shows os laws works w p s
      → let (w', p') = rounds_run os io fd size w p rounds in
        Shows os laws works w' p' (outline s (flatten rounds))
  unfolding rounds_run flatten outline
  rounds_run-Shows fd size w p [] s found k = k
  rounds_run-Shows fd size w p (es ∷ rounds) s ((data_found, quiet), found) k =
      let w₁ = (io.safe_read w fd size).0 in
      let (w', p') = run os w₁ p es in
      let k₁ = run-Shows os laws works w₁ p s es (Quiet-Shows os laws works w w₁ p s quiet k) in
      let (w'', p'') = rounds_run os io fd size w' p' rounds in
      subst (Shows os laws works w'' p'') (sym (outline-append s es (flatten rounds)))
        (rounds_run-Shows fd size w' p' rounds (outline s es) found k₁)

  -- However a message is divided, the parser ends as it does when there is one read, but for a body
  -- that holds the same bytes in another way.
  pub rounds_run-same :
      (fd : ℤ) (size : ℕ) (w w₁ : World) (p p₁ : Parser) (rounds : List (List Event))
      (es : List Event) (known bytes : Bytes)
      → flatten rounds ≡ es
      → Readable fd size w p rounds
      → Kept os laws works w (msg p.target).body known
      → run os w p es ≡ (w₁, p₁)
      → Kept os laws works w₁ (msg p₁.target).body bytes
      → let (w', p') = rounds_run os io fd size w p rounds in
        (b : Body) × (p' ≡ with_body p₁ b) × Kept os laws works w' b bytes
  rounds_run-same fd size w w₁ p p₁ rounds es known bytes joined found held read kept =
      let s : Outline = (p, known) in
      let start : Shows os laws works w p s = (
        (msg p.target).body,
        ap (λ t. record p { target = t }) (sym (set_body_self p.target)),
        held,
      ) in
      let one =
        subst (λ (x : World × Parser). Shows os laws works x.0 x.1 (outline s es)) read
          (run-Shows os laws works w p s es start) in
      let (w', p') = rounds_run os io fd size w p rounds in
      let several =
        subst (λ fs. Shows os laws works w' p' (outline s fs)) joined
          (rounds_run-Shows fd size w p rounds s found start) in
      Shows-same os laws works w₁ w' p₁ p' (outline s es) bytes one several kept
