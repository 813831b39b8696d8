-- ===== src/Session/Chunks.antt =====
-- session/session.go, writeDataFrame: any data goes out in frames of at most 16384 bytes.
use anytls_x.Base.{
  ℕ, zero, suc, ◌+◌, ◌≤◌, refl, sym, subst, none, List, arith, length, length-take, length-drop,
  length-eq-zero, take, drop, take-append-drop, if_cases, ◌==◌,
}
use anytls_x.Env.{Env}
use anytls_x.Frame.Wire.{IsU32}
use anytls_x.Session.Defs.{Net}
use anytls_x.Session.Write.{send_psh, write_data_loop, write_data_frame}
use anytls_x.Session.Carry.{Carries}
use anytls_x.Session.Carried.{Carries-nil, Carries-round}

-- With fuel for every byte the loop carries all of the data, or stops at the frame that fails.
write_data_loop-Carries :
    (e : Env) (sid total : ℕ) (fuel : ℕ) (bytes : List ℕ) (written : ℕ) (n : Net)
    → IsU32 sid
    → length bytes ≤ fuel
    → Carries sid total written bytes n (write_data_loop e sid total fuel bytes written n)
unfolding write_data_loop
write_data_loop-Carries e sid total zero bytes written n hs h =
    subst (λ x. Carries sid total written x n (record { n = total; error = none }, n))
      (sym (length-eq-zero bytes (omega arith))) (Carries-nil sid total written n)
write_data_loop-Carries e sid total (suc fuel) bytes written n hs h =
    if_cases (Carries sid total written bytes n) (length bytes == 0) _ _
      (λ empty.
        subst (λ x. Carries sid total written x n (record { n = total; error = none }, n))
          (sym (length-eq-zero bytes (ground (arith, empty)))) (Carries-nil sid total written n))
      (λ more.
        let chunk = take 16384 bytes in
        let sent = send_psh e sid chunk n in
        Carries-round e sid total written chunk (drop 16384 bytes) bytes n n _ hs
          (ground (arith, more, length-take 16384 bytes)) (omega (arith, length-take 16384 bytes))
          (take-append-drop 16384 bytes) refl refl
          (write_data_loop-Carries e sid total fuel (drop 16384 bytes) (written + length chunk)
            sent.1 hs (ground (arith, more, length-drop 16384 bytes))))

-- writeDataFrame carries the whole data, or answers how much of it went out in whole frames.
pub write_data_frame-Carries :
    (e : Env) (sid : ℕ) (bytes : List ℕ) (n : Net)
    → IsU32 sid
    → Carries sid (length bytes) 0 bytes n (write_data_frame e sid bytes n)
unfolding write_data_frame
write_data_frame-Carries e sid bytes n hs =
    write_data_loop-Carries e sid (length bytes) (length bytes) bytes 0 n hs (omega arith)
