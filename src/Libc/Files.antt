-- ===== src/Libc/Files.antt =====
-- The files of a file system.
use net_chunk.Base.{ℕ, Bool, false, Option, none, some, List, ◌≡◌, refl, if◌then◌else◌}
use net_chunk.Libc.Text.{same_text}

-- What stands at each path.
abbrev pub Files : Type 0
Files = List ℕ → Option (List ℕ)

abbrev pub put : Files → List ℕ → Option (List ℕ) → Files
put fs path content other = if same_text other path then content else fs other

pub put_other :
    (fs : Files) (path other : List ℕ) (x : Option (List ℕ))
    → same_text path other ≡ false
    → put fs other x path ≡ fs path
put_other fs path other x e = rw e refl

-- How an output file ends: what `fclose` leaves in it of the bytes that `fwrite` took, and whether the
-- file can be removed.
pub record Closing : Type 0 where
  pub written_out : List ℕ → List ℕ
  pub removed : Bool

-- The file at the path after `fclose` and `unlink` or `remove`, whose results the source ignores.
abbrev pub discarded : Closing → List ℕ → Option (List ℕ)
discarded closing bytes = if closing.removed then none else some (closing.written_out bytes)

-- `fclose` writes out all that `fwrite` took.
abbrev pub Flushes : Closing → Type 0
Flushes closing = (bytes : List ℕ) → closing.written_out bytes ≡ bytes
