-- ===== src/Query/Parser/Join.antt =====
-- `join` of internal/query/parse.go, and the shape of the trees that it builds.
use holodex.Prelude.{Bool, true, false}
use holodex.Query.Tree.{Node, Nodes, any, all, nil, cons}

unfoldable pub append : Nodes → Nodes → Nodes
append nil ns = ns
append (cons m ms) ns = cons m (append ms ns)

-- A nested node of the same kind gives its items.
unfoldable pub splice : Bool → Node → Nodes → Nodes
unfolding append
splice true (all ms) ns = append ms ns
splice false (any ms) ns = append ms ns
splice _ n ns = cons n ns

unfoldable pub flatten : Bool → Nodes → Nodes
unfolding splice
flatten b nil = nil
flatten b (cons n ns) = splice b n (flatten b ns)

unfoldable pub collapse : Bool → Nodes → Node
collapse b (cons n nil) = n
collapse true ns = all ns
collapse false ns = any ns

unfoldable pub join : Bool → Nodes → Node
unfolding flatten collapse
join b items = collapse b (flatten b items)
