-- ===== src/Client.antt =====
-- fuse_ext2_client/src/fuse_client.c: the FUSE operations. Each sends one request and runs the
-- dispatch loop of the RPC library until its closure has set `is_done`. What the runs of the
-- dispatch loop bring is a parameter: a list with `none` for a run that brings nothing and `some r`
-- for one that hands the response r to the closure.
pub mod Laws
pub mod Returns
pub mod Main
pub mod Stray
use fuse_ext.Base.{
  ℕ, ◌+◌, Bool, true, false, ltb, if◌then◌else◌, Option, none, some, List, [], ◌∷◌, ◌++◌, length,
  drop, u32, Outcome, ok, fault, out_of_fuel, ◌>>=◌,
}
use fuse_ext.Base.Int.{ℤ, pos, negsuc}
use fuse_ext.Rpc.{Request, read_dir, get_attr, read, write, GetAttrResponse, ReadResponse}

-- `-ENOENT`
abbrev pub minus_enoent : ℤ
minus_enoent = negsuc 1

-- What a closure shares with the operation that waits for it.
pub record Pending {ℓ} (S : Type ℓ) : Type ℓ where
  pub is_done : Bool
  pub res : ℤ
  pub out : S

-- `while (!is_done) dispatch_run(...)`: `out_of_fuel` when the runs are used up before.
unfoldable pub wait {ℓ κ} :
    {R : Type ℓ} {S : Type κ}
    → (R → Pending S → Outcome (Pending S))
    → List (Option R)
    → Pending S
    → Outcome (Pending S)
wait closure [] p = if p.is_done then ok p else out_of_fuel
wait closure (none ∷ runs) p = let rest = wait closure runs p in if p.is_done then ok p else rest
wait closure (some r ∷ runs) p =
    let rest = closure r p >>= λ q. wait closure runs q in if p.is_done then ok p else rest

abbrev pub finish {ℓ} : {S : Type ℓ} → Outcome (Pending S) → Outcome (ℤ × S)
finish (ok p) = ok (p.res, p.out)
finish fault = fault
finish out_of_fuel = out_of_fuel

abbrev pub start {ℓ} : {S : Type ℓ} → S → Pending S
start s = record { is_done = false; res = pos 0; out = s }

-- The fields of struct stat that are set.
pub record Stat : Type 0 where
  pub st_mode : ℕ
  pub st_size : ℕ
  pub st_nlink : ℕ
  pub st_blocks : ℕ

unfoldable pub getattr_closure : GetAttrResponse → Pending Stat → Outcome (Pending Stat)
getattr_closure result p =
    if result.fileexist
    then ok (record p {
      is_done = true;
      out = record {
        st_mode = result.mode;
        st_size = result.size;
        st_nlink = result.nlinks;
        st_blocks = result.blocks;
      };
    })
    else ok (record p { is_done = true; res = minus_enoent })

-- Each operation as the request that it sends and its result, by the runs of the dispatch loop.
unfoldable pub fuse_getattr :
    List ℕ → Stat → Request × (List (Option GetAttrResponse) → Outcome (ℤ × Stat))
unfolding wait getattr_closure
fuse_getattr path stbuf = (get_attr path, λ runs. finish (wait getattr_closure runs (start stbuf)))

-- `filler` takes the names one by one; its result is not looked at.
unfoldable pub readdir_closure :
    List (List ℕ) → Pending (List (List ℕ)) → Outcome (Pending (List (List ℕ)))
readdir_closure elements p = ok (record p { is_done = true; out = p.out ++ elements })

unfoldable pub fuse_readdir :
    List ℕ → List (List ℕ) → Request × (List (Option (List (List ℕ))) → Outcome (ℤ × List (List ℕ)))
unfolding wait readdir_closure
fuse_readdir path buf = (read_dir path, λ runs. finish (wait readdir_closure runs (start buf)))

abbrev pub fuse_open : List ℕ → ℤ
fuse_open path = pos 0

-- `memcpy(buf, …)`: past the end of the buffer is a fault.
unfoldable pub read_closure : ReadResponse → Pending (List ℕ) → Outcome (Pending (List ℕ))
read_closure result p =
    if result.error
    then ok (record p { res = minus_enoent })
    else (if ltb (length p.out) (length result.bytes)
        then fault
        else ok (record p {
          is_done = true;
          res = pos (length result.bytes);
          out = result.bytes ++ drop (length result.bytes) p.out;
        }))

-- The fields of the query are uint32_t. `buf` has room for `size` bytes.
unfoldable pub fuse_read :
    List ℕ → List ℕ → ℕ → Request × (List (Option ReadResponse) → Outcome (ℤ × List ℕ))
unfolding wait read_closure
fuse_read path buf offset =
    (read path (u32 offset) (u32 (length buf)), λ runs. finish (wait read_closure runs (start buf)))

-- The closure takes the response for an RpcLayer__ReadResponse, whose `error` lies past the end of the
-- RpcLayer__WriteResponse that comes (Client.Stray): what it reads is not the response, but whatever
-- stands in the memory behind it, and that is what the runs bring here.
unfoldable pub write_closure : Bool → Pending (Unit {0}) → Outcome (Pending (Unit {0}))
write_closure behind p =
    if behind then ok (record p { res = minus_enoent }) else ok (record p { is_done = true })

unfoldable pub fuse_write :
    List ℕ → List ℕ → ℕ → Request × (List (Option Bool) → Outcome (ℤ × Unit {0}))
unfolding wait write_closure
fuse_write path buf offset =
    (write path (u32 offset) buf, λ runs. finish (wait write_closure runs (start tt)))
