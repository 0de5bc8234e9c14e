-- ===== src/Io/File.antt =====
-- What send_buffered_body() does with a file.
use libstutter.Common.{
  ℕ, zero, suc, ◌+◌, ◌-◌, ◌≤◌, ◌<◌, ◌≡◌, refl, ap, true, false, arith, Bool-cases, inl, inr,
}
use libstutter.Common.Int.{ℤ, pos, is_pos, pos_part, pos_part-is_pos}
use libstutter.Body.{Body, size_on_disk}
use libstutter.Os.{Os}
use libstutter.Io.{Strategy, sendfile_rest, send_buffered_body}

-- sendfile(2) on Linux, for a file whose size does not change: the bytes that it counts are within
-- the request and within the file, go out, and move the offset.
pub record SendfileLaws (os : Os) (io : Strategy os) : Type 0 where
  pub file_size : ℤ → ℕ
  pub within :
      (w : os.World) (out_fd in_fd : ℤ) (offset count : ℕ)
      → let r = io.safe_sendfile w out_fd in_fd offset count in
        (pos_part r.1 ≤ count)
        × (pos_part r.1 ≤ file_size in_fd - offset)
        × (r.2 ≡ offset + pos_part r.1)

is_pos_of : (z : ℤ) (n : ℕ) → z ≡ pos n → 0 < n → is_pos z ≡ true
is_pos_of z n e h = rw e (ground arith)

module _ (os : Os) (io : Strategy os) (laws : SendfileLaws os io) where
  open os use {World}
  open laws use {file_size}

  -- Once the loop asks for more than stands behind its offset it cannot succeed.
  overrun_fails :
      (fuel : ℕ) (w : World) (out_fd in_fd : ℤ) (offset remain : ℕ)
      → remain ≤ fuel
      → 0 < remain
      → file_size in_fd < offset + remain
      → (sendfile_rest os io fuel w out_fd in_fd offset remain).1 ≡ false
  unfolding sendfile_rest
  overrun_fails zero w out_fd in_fd offset remain f z over = absurd (omega arith)
  overrun_fails (suc fuel) w out_fd in_fd offset zero f z over = absurd (omega arith)
  overrun_fails (suc fuel) w out_fd in_fd offset (suc remain) f z over =
      let r = io.safe_sendfile w out_fd in_fd offset (suc remain) in
      let (fits, inside, moved) = laws.within w out_fd in_fd offset (suc remain) in
      elim (Bool-cases (is_pos r.1)) [
        | inl some ↦ rw some (
            overrun_fails fuel r.0 out_fd in_fd (r.2 + pos_part r.1) (suc remain - pos_part r.1)
              (omega (arith, pos_part-is_pos r.1 some)) (omega arith) (omega arith))
        | inr none ↦ rw none
      ]

  sendfile_done :
      (fuel : ℕ) (w : World) (out_fd in_fd : ℤ) (offset remain : ℕ)
      → remain ≡ 0
      → (sendfile_rest os io fuel w out_fd in_fd offset remain).1 ≡ true
  unfolding sendfile_rest
  sendfile_done zero w out_fd in_fd offset remain e = refl
  sendfile_done (suc fuel) w out_fd in_fd offset zero e = refl
  sendfile_done (suc fuel) w out_fd in_fd offset (suc remain) e = absurd (omega arith)

  whole_rest :
      (n : ℕ) (w : World) (out_fd in_fd : ℤ)
      → (io.safe_sendfile w out_fd in_fd 0 n).1 ≡ pos n
      → (sendfile_rest os io n w out_fd in_fd 0 n).1 ≡ true
  unfolding sendfile_rest
  whole_rest zero w out_fd in_fd whole = refl
  whole_rest (suc n) w out_fd in_fd whole =
      let r = io.safe_sendfile w out_fd in_fd 0 (suc n) in
      rw (is_pos_of (io.safe_sendfile w out_fd in_fd 0 (suc n)).1 (suc n) whole (omega arith)) (
        sendfile_done n r.0 out_fd in_fd (r.2 + pos_part r.1) (suc n - pos_part r.1)
          (omega (arith, ap pos_part whole)))

  partial_rest :
      (n : ℕ) (w : World) (out_fd in_fd : ℤ) (sent : ℕ)
      → file_size in_fd ≡ n
      → 0 < sent
      → sent < n
      → (io.safe_sendfile w out_fd in_fd 0 n).1 ≡ pos sent
      → (sendfile_rest os io n w out_fd in_fd 0 n).1 ≡ false
  unfolding sendfile_rest
  partial_rest zero w out_fd in_fd sent size some part e = absurd (omega arith)
  partial_rest (suc n) w out_fd in_fd (suc sent) size some part e =
      let r = io.safe_sendfile w out_fd in_fd 0 (suc n) in
      let moved = (laws.within w out_fd in_fd 0 (suc n)).2 in
      rw (is_pos_of (io.safe_sendfile w out_fd in_fd 0 (suc n)).1 (suc sent) e some) (
        overrun_fails n r.0 out_fd in_fd (r.2 + pos_part r.1) (suc n - pos_part r.1)
          (omega (arith, ap pos_part e)) (omega (arith, ap pos_part e))
          (omega (arith, ap pos_part e, moved)))
  partial_rest (suc n) w out_fd in_fd zero size some part e = absurd (omega arith)

  -- A body on disk that the first sendfile() takes whole is sent.
  pub whole_file_sent :
      (w : World) (out_fd : ℤ) (b : Body)
      → (io.safe_sendfile w out_fd b.fd 0 (size_on_disk b)).1 ≡ pos (size_on_disk b)
      → (send_buffered_body os io w out_fd b).1 ≡ true
  unfolding send_buffered_body
  whole_file_sent w out_fd b whole = ground (arith, whole_rest (size_on_disk b) w out_fd b.fd whole)

  -- A body on disk, in a file of its size, that the first sendfile() takes only in part is never
  -- sent: send_buffered_body() fails whatever the later calls take.
  pub partial_file_fails :
      (w : World) (out_fd : ℤ) (b : Body) (sent : ℕ)
      → is_pos b.fd ≡ true
      → file_size b.fd ≡ size_on_disk b
      → 0 < sent
      → sent < size_on_disk b
      → (io.safe_sendfile w out_fd b.fd 0 (size_on_disk b)).1 ≡ pos sent
      → (send_buffered_body os io w out_fd b).1 ≡ false
  unfolding send_buffered_body
  partial_file_fails w out_fd b sent file size some part e =
      rw file (partial_rest (size_on_disk b) w out_fd b.fd sent size some part e)
