-- ===== src/System/Readdir.antt =====
-- A FUSE readdir through the server.
use fuse_ext.Base.{ℕ, ◌==◌, if◌then◌else◌, List, [], ◌∷◌, ◌>>=◌}
use fuse_ext.Ext2.Layout.{DirectoryEntry}
use fuse_ext.Ext2.Directory.{c_string}

-- The names of the records in use.
abbrev pub used_names : List DirectoryEntry → List (List ℕ)
used_names [] = []
used_names (d ∷ ds) = if d.inode == 0 then used_names ds else c_string d.name ∷ used_names ds
