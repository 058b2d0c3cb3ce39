-- ===== src/CgiServer/Buffer.antt =====
-- process/CGI_server/cgi_server.h: the buffer under recv and the C string at its start.
use advanced_programming_in.Base.{
  ℕ, zero, suc, ◌+◌, ◌-◌, ◌≤◌, ◌<◌, ◌≡◌, refl, ap, sym, ◌∙◌, List, [], ◌∷◌, ◌++◌, get_or, set,
  length, take, arith, length-set, get_or-set_ne, take-set-next, take-set-beyond, append-nil,
  append_assoc,
}
use advanced_programming_in.CgiServer.{write_at, c_string, ends_line}

pub get_or-take : (l : List ℕ) (n j : ℕ) → j < n → get_or (take n l) j 0 ≡ get_or l j 0
get_or-take l zero j h = absurd (omega arith)
get_or-take [] (suc n) j h = refl
get_or-take (x ∷ l) (suc n) zero h = refl
get_or-take (x ∷ l) (suc n) (suc j) h = get_or-take l n j (omega arith)

pub take-take : (l : List ℕ) (m n : ℕ) → m ≤ n → take m (take n l) ≡ take m l
take-take l zero n h = refl
take-take l (suc m) zero h = absurd (omega arith)
take-take [] (suc m) (suc n) h = refl
take-take (x ∷ l) (suc m) (suc n) h = ap (λ r. x ∷ r) (take-take l m n (omega arith))

pub length-write_at : (bytes buf : List ℕ) (i : ℕ) → length (write_at buf i bytes) ≡ length buf
unfolding write_at
length-write_at [] buf i = refl
length-write_at (b ∷ bytes) buf i = length-write_at bytes (set buf i b) (i + 1) ∙ length-set buf i b

-- After a recv the first bytes are those from before, followed by the new ones.
pub take-write_at :
    (bytes buf : List ℕ) (i : ℕ)
    → i + length bytes ≤ length buf
    → take (i + length bytes) (write_at buf i bytes) ≡ take i buf ++ bytes
unfolding write_at
take-write_at [] buf i h = let e : i + 0 ≡ i = omega arith in rw e (sym (append-nil (take i buf)))
take-write_at (b ∷ bytes) buf i h =
    let e : i + suc (length bytes) ≡ (i + 1) + length bytes = omega arith in
    rw e (
      take-write_at bytes (set buf i b) (i + 1) (omega (arith, length-set buf i b))
      ∙ (ap (λ r. r ++ bytes) (take-set-next buf i b (omega arith))
          ∙ append_assoc (take i buf) (b ∷ []) bytes))

-- The bytes behind them stay.
pub write_at-above :
    (bytes buf : List ℕ) (i j : ℕ)
    → i + length bytes ≤ j
    → get_or (write_at buf i bytes) j 0 ≡ get_or buf j 0
unfolding write_at
write_at-above [] buf i j h = refl
write_at-above (b ∷ bytes) buf i j h =
    write_at-above bytes (set buf i b) (i + 1) j (omega arith)
    ∙ get_or-set_ne buf i j b 0 (λ e. absurd (omega (arith, e)))

-- A '\0' at `k` ends the string that starts the array there at the latest.
pub c_string-set :
    (buf : List ℕ) (k : ℕ) → k < length buf → c_string (set buf k 0) ≡ c_string (take k buf)
unfolding c_string
c_string-set [] k h = absurd (omega arith)
c_string-set (x ∷ buf) zero h = refl
c_string-set (x ∷ buf) (suc k) h = rw (c_string-set buf k (omega arith)) refl

-- Whether a byte ends a line depends on it and the byte before it alone.
pub ends_line-take : (l : List ℕ) (n j : ℕ) → j < n → ends_line (take n l) j ≡ ends_line l j
unfolding ends_line
ends_line-take l n j h = rw (get_or-take l n j h) (rw (get_or-take l n (j - 1) (omega arith)) refl)

-- The bytes before them stay too.
pub write_at-below :
    (bytes buf : List ℕ) (i n : ℕ) → n ≤ i → take n (write_at buf i bytes) ≡ take n buf
unfolding write_at
write_at-below [] buf i n h = refl
write_at-below (b ∷ bytes) buf i n h =
    write_at-below bytes (set buf i b) (i + 1) n (omega arith) ∙ take-set-beyond buf n i b h
