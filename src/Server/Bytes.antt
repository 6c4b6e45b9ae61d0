-- ===== src/Server/Bytes.antt =====
-- The services keep the device a memory of bytes.
use fuse_ext.Base.{
  ℕ, ◌≡◌, ap, subst, Bool, false, some, none, Option, List, Ptr, Memory, IsBytes, Outcome, ok,
  ◌>>=◌, >>=-eq-ok, ok-injective,
}
use fuse_ext.Rpc.{
  Request, read_dir, get_attr, read, write, Response, entries, attributes, content, written,
}
use fuse_ext.Ext2.Geometry.{Fs}
use fuse_ext.Ext2.Directory.{get_element_inode, list_dir}
use fuse_ext.Ext2.Resize.{Clusters}
use fuse_ext.Ext2.Data.{write_inode_data}
use fuse_ext.Ext2.Data.Bytes.{AreBytes, KeepBytes, write_inode_data-IsBytes}
use fuse_ext.Server.{
  serve, names, get_attr_response, read_element, write_element, service_read_dir, service_get_attr,
  service_read, service_write,
}

-- The data of a write are bytes.
abbrev pub HasBytes : Request → Type 0
HasBytes (read_dir path) = Unit {0}
HasBytes (get_attr path) = Unit {0}
HasBytes (read path offset length) = Unit {0}
HasBytes (write path offset buff) = AreBytes buff

module _ (clusters : Clusters) (keep : KeepBytes clusters) (m : Memory) (fs : Fs)
    (bytes : IsBytes m) where
  abbrev answered_by : Response → Outcome (Memory × Response)
  answered_by a = ok (m, a)

  -- A step that leaves the device as it is.
  unchanged :
      {A : Type 0} {after : Memory} {a : Response} (run : Outcome A) (f : A → Response)
      → (run >>= λ x. answered_by (f x)) ≡ ok (after, a)
      → IsBytes after
  unchanged run f result =
      let (x, _, last) = >>=-eq-ok run (λ x. answered_by (f x)) result in
      subst IsBytes (ap (λ (r : Memory × Response). r.0) (ok-injective last)) bytes

  write_element-IsBytes :
      (element : Option Ptr) (offset : ℕ) (buff : List ℕ) (r : Memory × Bool)
      → AreBytes buff
      → write_element clusters m fs element offset buff ≡ ok r
      → IsBytes r.0
  unfolding write_element
  write_element-IsBytes none offset buff r small run =
      subst IsBytes (ap (λ (t : Memory × Bool). t.0) (ok-injective run)) bytes
  write_element-IsBytes (some element) offset buff r small run =
      let (m', wrote, last) =
        >>=-eq-ok (write_inode_data clusters m fs element buff offset) (λ t. ok (t, false)) run in
      subst IsBytes (ap (λ (t : Memory × Bool). t.0) (ok-injective last))
        (write_inode_data-IsBytes clusters keep fs element m m' buff offset bytes small wrote)

  -- On a device of bytes, if the functions for clusters, which no file defines, keep a device of
  -- bytes one, every request whose data are bytes and that the server answers leaves a device of
  -- bytes.
  pub serve-IsBytes :
      (r : Request) {after : Memory} {a : Response}
      → HasBytes r
      → serve clusters m fs r ≡ ok (after, a)
      → IsBytes after
  unfolding serve service_read_dir service_get_attr service_read service_write
  serve-IsBytes (read_dir path) small run =
      unchanged (list_dir m fs path) (λ es. entries (names es)) run
  serve-IsBytes (get_attr path) small run =
      unchanged (get_element_inode m fs path) (λ e. attributes (get_attr_response m e)) run
  serve-IsBytes (read path offset length) small run =
      let (e, _, rest) =
        >>=-eq-ok (get_element_inode m fs path)
          (λ e. read_element m fs e offset length >>= λ r. ok (m, content r)) run in
      unchanged (read_element m fs e offset length) content rest
  serve-IsBytes (write path offset buff) small run =
      let (e, _, rest) =
        >>=-eq-ok (get_element_inode m fs path)
          (λ e. write_element clusters m fs e offset buff >>= λ r. ok (r.0, written r.1)) run in
      let (r, wrote, last) =
        >>=-eq-ok (write_element clusters m fs e offset buff) (λ r. ok (r.0, written r.1)) rest in
      subst IsBytes (ap (λ (t : Memory × Response). t.0) (ok-injective last))
        (write_element-IsBytes e offset buff r small wrote)
