-- ===== src/Platform/Calls.antt =====
-- The calls that neither open nor close a descriptor, and `accept`, which opens one.
use sencd.Base.{ℕ, ◌≡◌, false, ◌||◌, List, ◌==◌, ℤ, pos, negsuc}
use sencd.Platform.Os.{Os, DescriptorLaws}
use sencd.Platform.Sodium.{Random}

pub record QuietLaws {W : Type 0} (os : Os W) (rnd : Random W) (laws : DescriptorLaws os)
    : Type 0 where
  pub send_keeps :
      (w : W) (fd : ℤ) (buf : List ℕ) (k : ℕ)
      → laws.is_open (os.send w fd buf).1 k ≡ laws.is_open w k
  pub recv_keeps : (w : W) (fd : ℤ) (n k : ℕ) → laws.is_open (os.recv w fd n).2 k ≡ laws.is_open w k
  pub malloc_keeps : (w : W) (n k : ℕ) → laws.is_open (os.malloc w n).1 k ≡ laws.is_open w k
  pub read_keeps : (w : W) (fd : ℤ) (n k : ℕ) → laws.is_open (os.read w fd n).2 k ≡ laws.is_open w k
  pub write_keeps :
      (w : W) (fd : ℤ) (bytes : List ℕ) (k : ℕ)
      → laws.is_open (os.write w fd bytes) k ≡ laws.is_open w k
  pub mkdir_keeps :
      (w : W) (path : List ℕ) (k : ℕ) → laws.is_open (os.mkdir w path).1 k ≡ laws.is_open w k
  pub write_file_keeps :
      (w : W) (path bytes : List ℕ) (k : ℕ)
      → laws.is_open (os.write_file w path bytes).1 k ≡ laws.is_open w k
  pub randombytes_keeps :
      (w : W) (n k : ℕ) → laws.is_open (rnd.randombytes w n).1 k ≡ laws.is_open w k
  pub kx_keypair_keeps : (w : W) (k : ℕ) → laws.is_open (rnd.kx_keypair w).1 k ≡ laws.is_open w k
  pub sign_keypair_keeps :
      (w : W) (k : ℕ) → laws.is_open (rnd.sign_keypair w).1 k ≡ laws.is_open w k
  pub accept_fresh :
      (w : W) (fd : ℤ) (n : ℕ) → (os.accept w fd).0 ≡ pos n → laws.is_open w n ≡ false
  pub accept_opens :
      (w : W) (fd : ℤ) (n k : ℕ)
      → (os.accept w fd).0 ≡ pos n
      → laws.is_open (os.accept w fd).2 k ≡ (k == n || laws.is_open w k)
  pub accept_fails :
      (w : W) (fd : ℤ) (n k : ℕ)
      → (os.accept w fd).0 ≡ negsuc n
      → laws.is_open (os.accept w fd).2 k ≡ laws.is_open w k
