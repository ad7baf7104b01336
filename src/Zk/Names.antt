-- ===== src/Zk/Names.antt =====
-- src/rb_zk.c: the paths of the nodes of a directory, and their names.
use rb_monitor.Prelude.{
  suc, ◌+◌, ◌-◌, ◌<◌, ◌≡◌, refl, true, none, ◌∷◌, ◌++◌, length, take_all, length-append, arith,
}
use rb_monitor.Prelude.Text.{Text}
use rb_monitor.Prelude.Text.Order.{strrchr, strrchr-last, take-append}
use rb_monitor.Zk.{slash, bufsiz, to_buf, Mutex, parent_node, prev_node_path}

abbrev pub node_path : Text → Text → Text
node_path dir name = dir ++ slash ∷ name

-- A name of a node of the directory: it has no '/', and its path fits a buffer.
pub record IsName (dir name : Text) : Type 0 where
  pub plain : strrchr name slash ≡ none
  pub short : length dir + suc (length name) < bufsiz

pub to_buf_short : (s : Text) → length s < bufsiz → to_buf s ≡ s
to_buf_short s h = take_all (bufsiz - 1) s (omega arith)

pub to_buf-node_path :
    (dir name : Text) → IsName dir name → to_buf (node_path dir name) ≡ node_path dir name
to_buf-node_path dir name h =
    to_buf_short (node_path dir name) (omega (arith, h.short, length-append dir (slash ∷ name)))

pub parent_node-node_path :
    (dir name : Text) → strrchr name slash ≡ none → parent_node (node_path dir name) ≡ (true, dir)
unfolding parent_node
parent_node-node_path dir name h =
    let size : length (dir ++ slash ∷ name) - length (slash ∷ name) ≡ length dir =
      omega (arith, length-append dir (slash ∷ name)) in
    rw (parent_node, strrchr-last dir name slash h, size, take-append dir (slash ∷ name)) refl

pub parent-node_path :
    (dir name : Text) → IsName dir name → (parent_node (to_buf (node_path dir name))).1 ≡ dir
parent-node_path dir name h =
    rw (to_buf-node_path dir name h, parent_node-node_path dir name h.plain) refl

-- For a mutex on a node of a directory, the path that is watched is that of the node `bef_str` of
-- the same directory, if both paths fit a buffer and the names have no '/'.
pub prev_node_path-node_path :
    (mutex : Mutex) (dir name bef_str : Text)
    → mutex.path ≡ node_path dir name
    → IsName dir name
    → IsName dir bef_str
    → prev_node_path mutex bef_str ≡ node_path dir bef_str
unfolding prev_node_path
prev_node_path-node_path mutex dir name bef_str e h k =
    rw (e, parent-node_path dir name h) (to_buf-node_path dir bef_str k)
