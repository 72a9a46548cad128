-- ===== src/Controller/PartitionGroup/Documents.antt =====
-- What `Reconcile` makes of a PartitionGroup that was read from a document.
use atomix_operator.Base.{◌≡◌, ◌≢◌, refl, ◌∙◌, inl, false, Option, none, some, ok}
use atomix_operator.Kube.Meta.{Foreign, NamespacedName}
use atomix_operator.Kube.Platform.{Platform}
use atomix_operator.V1alpha1.DeepCopy.Structs.{ResourceOf}
use atomix_operator.V1alpha1.Json.{Numbers, object, Members}
use atomix_operator.V1alpha1.Json.Fields.{of_members, lookup}
use atomix_operator.V1alpha1.Json.Tags.{VendoredJson}
use atomix_operator.V1alpha1.Json.Resources.{GroupSpec, group_codec}
use atomix_operator.V1alpha1.Json.Values.{Vendored, map_pointer, to_group}
use atomix_operator.V1alpha1.Json.Sections.{is_there, is_set, group-HasSections}
use atomix_operator.Util.PartitionGroup.Protocol.{HasNoProtocol}
use atomix_operator.Controller.Client.{Client, key_of, partition_group, stateful_set}
use atomix_operator.Controller.Store.{Store}
use atomix_operator.Controller.PartitionGroup.{reconcile}
use atomix_operator.Controller.PartitionGroup.Outcomes.{group_reconcile_unbuilt}

unset_pointer :
    {A B : Type 0} (f : A → B) (o : Option A) → is_set o ≡ false → map_pointer f o ≡ none
unset_pointer f none e = refl
unset_pointer f (some a) e = cc

unset_lem : {A : Type 0} (o : Option A) → is_set o ≡ false → o ≡ none
unset_lem none e = refl
unset_lem (some a) e = cc

module _ {N : Numbers} {V : VendoredJson N} {F : Foreign} (W : Vendored V F) where
  unread-HasNoProtocol :
      (ms ss : Members N) (g : ResourceOf V.ObjectMeta (GroupSpec V))
      → (group_codec V).decode (object ms) ≡ ok g
      → lookup "spec" (of_members ms) ≡ some (object ss)
      → is_there (lookup "raft" (of_members ss)) ≡ false
      → is_there (lookup "primaryBackup" (of_members ss)) ≡ false
      → is_there (lookup "log:omitempty" (of_members ss)) ≡ false
      → HasNoProtocol (to_group W g)
  unread-HasNoProtocol ms ss g decoded spec raft backup log =
      let (r, b, l) = group-HasSections V ms ss g decoded spec in
      (
        unset_pointer _ g.spec.raft (r ∙ raft),
        unset_lem g.spec.primary_backup (b ∙ backup),
        unset_pointer _ g.spec.log (l ∙ log),
      )

  module _ {P : Platform F} (C : Client P) (S : Store C) where
    -- For a stored group that was read from a document whose specification is an object with no
    -- value, or null, under `raft`, `primaryBackup` and `log:omitempty`, whatever it has under
    -- `log`, and without a StatefulSet under its name, `Reconcile` does not succeed and creates no
    -- such StatefulSet.
    pub group_reconcile_log_unread :
        (request : NamespacedName) (w : C.World) (ms ss : Members N)
        (g : ResourceOf V.ObjectMeta (GroupSpec V))
        → (group_codec V).decode (object ms) ≡ ok g
        → lookup "spec" (of_members ms) ≡ some (object ss)
        → is_there (lookup "raft" (of_members ss)) ≡ false
        → is_there (lookup "primaryBackup" (of_members ss)) ≡ false
        → is_there (lookup "log:omitempty" (of_members ss)) ≡ false
        → S.lookup w partition_group request ≡ some (to_group W g)
        → S.lookup w stateful_set (key_of F partition_group (to_group W g)) ≡ none
        → ((reconcile C request w).1 ≢ ok tt)
          × (S.lookup
                (reconcile C request w).0
                stateful_set
                (key_of F partition_group (to_group W g))
              ≡ none)
    group_reconcile_log_unread request w ms ss g decoded spec raft backup log found missing =
        group_reconcile_unbuilt C S request w (to_group W g) found
          (inl (unread-HasNoProtocol ms ss g decoded spec raft backup log)) missing
