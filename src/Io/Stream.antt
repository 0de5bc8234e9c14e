-- ===== src/Io/Stream.antt =====
-- What send_raw() puts on a stream.
use libstutter.Common.{
  ℕ, zero, suc, ◌≤◌, ◌≡◌, refl, sym, ap, ◌∙◌, Bool, true, false, [], ◌∷◌, ◌++◌, arith, length,
  length-drop_lt, ◌≢◌, take, drop, take-append-drop, append_assoc, append-nil, Bool-cases, inl, inr,
}
use libstutter.Common.Int.{ℤ, pos, negsuc, is_pos, pos_part, pos_part-is_pos}
use libstutter.Common.Bytes.{Bytes}
use libstutter.Os.{Os}
use libstutter.Io.{Strategy, write_rest, send_raw}

-- What POSIX says of write on a stream, seen through a strategy: the bytes that it counts go out.
pub record StreamLaws (os : Os) (io : Strategy os) : Type 0 where
  pub sent : os.World → ℤ → Bytes
  pub write_sends :
      (w : os.World) (fd : ℤ) (p : Bytes)
      → (pos_part (io.safe_write w fd p).1 ≤ length p)
        × (sent (io.safe_write w fd p).0 fd
            ≡ sent w fd ++ take (pos_part (io.safe_write w fd p).1) p)

take_none : (n : ℤ) (p : Bytes) → is_pos n ≡ false → take (pos_part n) p ≡ []
take_none (pos zero) p h = refl
take_none (pos (suc n)) p h = absurd (ground arith)
take_none (negsuc n) p h = refl

-- With the success flag true all of `p` went out, else a part that leaves something.
pub record Sent (before after p : Bytes) (success : Bool) : Type 0 where
  pub part : Bytes
  pub left : Bytes
  pub split : part ++ left ≡ p
  pub grown : after ≡ before ++ part
  pub complete : success ≡ true → left ≡ []
  pub broken : success ≡ false → left ≢ []

module _ (os : Os) (io : Strategy os) (laws : StreamLaws os io) where
  open os use {World}
  open laws use {sent}

  more-Sent :
      (before middle after p : Bytes) (n : ℕ) (success : Bool)
      → middle ≡ before ++ take n p
      → Sent middle after (drop n p) success
      → Sent before after p success
  more-Sent before middle after p n success e s = record {
    part = take n p ++ s.part;
    left = s.left;
    split =
        append_assoc (take n p) s.part s.left ∙ ap (◌++◌ (take n p)) s.split ∙ take-append-drop n p;
    grown = s.grown ∙ ap (λ t. t ++ s.part) e ∙ append_assoc before (take n p) s.part;
    complete = s.complete;
    broken = s.broken;
  }

  write_rest-Sent :
      (fuel : ℕ) (w : World) (fd : ℤ) (p : Bytes)
      → length p ≤ fuel
      → Sent
          (sent w fd)
          (sent (write_rest os io fuel w fd p).0 fd)
          p
          (write_rest os io fuel w fd p).1
  unfolding write_rest
  write_rest-Sent zero w fd [] h = record {
    part = [];
    left = [];
    split = refl;
    grown = sym (append-nil _);
    complete = λ _. refl;
    broken = λ h. cc;
  }
  write_rest-Sent zero w fd (c ∷ rest) h = absurd (omega arith)
  write_rest-Sent (suc fuel) w fd [] h = record {
    part = [];
    left = [];
    split = refl;
    grown = sym (append-nil _);
    complete = λ _. refl;
    broken = λ h. cc;
  }
  write_rest-Sent (suc fuel) w fd (c ∷ rest) h =
      let (w', ret) = io.safe_write w fd (c ∷ rest) in
      let law = laws.write_sends w fd (c ∷ rest) in
      elim (Bool-cases (is_pos ret)) [
        | inl more ↦ rw more (
            more-Sent (sent w fd) (sent w' fd) _ (c ∷ rest) (pos_part ret) _ law.1 (
              write_rest-Sent fuel w' fd (drop (pos_part ret) (c ∷ rest))
                (length-drop_lt (pos_part ret) c rest fuel (pos_part-is_pos ret more) h)))
        | inr stopped ↦ rw stopped record {
          part = [];
          left = c ∷ rest;
          split = refl;
          grown = law.1 ∙ ap (◌++◌ (sent w fd)) (take_none ret (c ∷ rest) stopped);
          complete = λ h. cc;
          broken = λ h e. cc;
        }
      ]

  -- send_raw() sends its bytes in order, without a gap and none twice; it reports success exactly
  -- when nothing is left, and a failure leaves the stream at the part that went out.
  pub send_raw-Sent :
      (w : World) (fd : ℤ) (p : Bytes)
      → Sent (sent w fd) (sent (send_raw os io w fd p).0 fd) p (send_raw os io w fd p).1
  unfolding send_raw
  send_raw-Sent w fd p = write_rest-Sent (length p) w fd p (omega arith)
