-- ===== src/System/Session/Fuse.antt =====
-- FUSE operations of the client: the query, the call through the stubs, the closure on the response;
-- and what a store of the files gives for them.
use fuse_ext.Base.{
  ℕ, zero, suc, ◌+◌, ◌-◌, min, ◌≡◌, refl, ap, ◌∙◌, Bool, false, some, List, [], ◌∷◌, ◌++◌, length,
  drop, Ptr, arith, Memory, Outcome, ok, fault, ◌>>=◌,
}
use fuse_ext.Base.Int.{ℤ, pos}
use fuse_ext.Rpc.{entries, Request, Response, content, written, attributes}
use fuse_ext.Rpc.Library.{Library}
use fuse_ext.Rpc.Service.Remote.{call}
use fuse_ext.Ext2.Layout.{inode_at}
use fuse_ext.Ext2.Geometry.{Fs}
use fuse_ext.Ext2.Directory.{list_inode}
use fuse_ext.Ext2.Resize.{Clusters}
use fuse_ext.Ext2.Data.Store.{Store, stored}
use fuse_ext.Server.{attributes_of}
use fuse_ext.Client.{Stat, fuse_getattr, fuse_readdir, fuse_read, fuse_write}
use fuse_ext.Client.Laws.{
  fuse_getattr-response, fuse_readdir-response, fuse_read-response, fuse_write-response,
}
use fuse_ext.System.Getattr.{stat_of_inode, stat_of-attributes_of}
use fuse_ext.System.Session.{Sent}
use fuse_ext.System.Session.Answers.{
  lists, listed_names, Op, writes, reads, stats, answer, after_op,
}

-- An operation of FUSE on a path, with the file that it is meant for.
pub data FuseOp : Type 0 where
  writing : Sent → FuseOp
  -- the path, the file, the offset, the buffer
  reading : List ℕ → Ptr → ℕ → List ℕ → FuseOp
  getting : List ℕ → Ptr → Stat → FuseOp
  -- the path, the directory, the names so far
  listing : List ℕ → Ptr → List (List ℕ) → FuseOp

abbrev pub op_of : FuseOp → Op
op_of (writing s) = writes s
op_of (reading path p from buf) = reads path p from (length buf)
op_of (getting path p stbuf) = stats path p
op_of (listing path d buf) = lists path d

-- The result, and the buffer or the stat as the operation leaves it.
pub data Done : Type 0 where
  wrote : ℤ → Done
  was_read : ℤ → List ℕ → Done
  got : ℤ → Stat → Done
  listed : ℤ → List (List ℕ) → Done

abbrev done_write : ℤ × Unit {0} → Done
done_write (r, u) = wrote r

abbrev done_read : ℤ × List ℕ → Done
done_read (r, buf) = was_read r buf

abbrev done_get : ℤ × Stat → Done
done_get (r, stbuf) = got r stbuf

abbrev done_list : ℤ × List (List ℕ) → Done
done_list (r, buf) = listed r buf

abbrev pub query_of : FuseOp → Request
query_of (writing s) = (fuse_write s.path s.to.buff s.to.offset).0
query_of (reading path p from buf) = (fuse_read path buf from).0
query_of (getting path p stbuf) = (fuse_getattr path stbuf).0
query_of (listing path d buf) = (fuse_readdir path buf).0

-- The operation goes on with its response. The closure of a write reads `behind`, which stands
-- behind the message; a response of another kind is read as one it is not.
abbrev pub resumed : Bool → FuseOp → Response → Outcome Done
resumed behind (writing s) (written error) = do
  r ← (fuse_write s.path s.to.buff s.to.offset).1 (some behind ∷ [])
  ok (done_write r)
resumed behind (reading path p from buf) (content a) = do
  r ← (fuse_read path buf from).1 (some a ∷ [])
  ok (done_read r)
resumed behind (getting path p stbuf) (attributes a) = do
  r ← (fuse_getattr path stbuf).1 (some a ∷ [])
  ok (done_get r)
resumed behind (listing path d buf) (entries elements) = do
  r ← (fuse_readdir path buf).1 (some elements ∷ [])
  ok (done_list r)
resumed behind o a = fault

module _ (lib : Library) (clusters : Clusters) (fs : Fs) (behind : Bool) where
  unfoldable pub operate : Memory → FuseOp → Outcome (Memory × Done)
  operate m o = do r ← call lib clusters fs m (query_of o); d ← resumed behind o r.1; ok (r.0, d)

  unfoldable pub operate_all : Memory → List FuseOp → Outcome (Memory × List Done)
  operate_all m [] = ok (m, [])
  operate_all m (o ∷ os) = do
    first ← operate m o
    rest ← operate_all first.0 os
    ok (rest.0, first.1 ∷ rest.1)

-- What a store of the files gives for the operation.
abbrev filled : List ℕ → List ℕ → Done
filled bytes buf = was_read (pos (length bytes)) (bytes ++ drop (length bytes) buf)

abbrev pub result : Fs → Memory → Store → FuseOp → Done
result fs start store (writing s) = wrote (pos 0)
result fs start store (reading path p from buf) =
    filled (stored store p from (min (length buf) ((inode_at start p).size - from))) buf
result fs start store (getting path p stbuf) = got (pos 0) (stat_of_inode (inode_at start p))
result fs start store (listing path d buf) =
    listed (pos 0) (buf ++ listed_names (list_inode start fs d))

abbrev pub results : Fs → Memory → Store → List FuseOp → List Done
results fs start store [] = []
results fs start store (o ∷ os) =
    result fs start store o ∷ results fs start (after_op store (op_of o)) os

length-stored : (store : Store) (p k n : ℕ) → length (stored store p k n) ≡ n
length-stored store p k zero = refl
length-stored store p k (suc n) = ap suc (length-stored store p (k + 1) n)

-- The closure of the operation, on the answer of the store, gives the result of the store.
pub resumed-answer :
    (fs : Fs) (start : Memory) (store : Store) (o : FuseOp)
    → resumed false o (answer fs start store (op_of o)) ≡ ok (result fs start store o)
unfolding attributes_of
resumed-answer fs start store (writing s) =
    ap (λ t. t >>= λ r. ok (done_write r)) (fuse_write-response s.path s.to.buff s.to.offset 0 [])
resumed-answer fs start store (reading path p from buf) =
    let count = min (length buf) ((inode_at start p).size - from) in
    let len = length-stored store p from count in
    ap (λ t. t >>= λ r. ok (done_read r))
      (fuse_read-response path buf from 0 (stored store p from count) [] (omega arith))
resumed-answer fs start store (getting path p stbuf) =
    let inode = inode_at start p in
    ap (λ t. t >>= λ r. ok (done_get r))
      (fuse_getattr-response path stbuf 0 (attributes_of inode) []
        ∙ ap (λ (st : Stat). ok (pos 0, st)) (stat_of-attributes_of inode))
resumed-answer fs start store (listing path d buf) =
    ap (λ t. t >>= λ r. ok (done_list r))
      (fuse_readdir-response path buf (listed_names (list_inode start fs d)) 0 [])
