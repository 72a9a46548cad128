-- ===== src/V1alpha1/DeepCopy/SpecCopies.antt =====
-- The copies of the specifications are copies, where those of the vendored packages are.
use atomix_operator.Base.{arith}
use atomix_operator.V1alpha1.Types.{PrimaryBackupPartitionGroup}
use atomix_operator.V1alpha1.DeepCopy.Heap.{Vendored, pure}
use atomix_operator.V1alpha1.DeepCopy.Cells.{env_type, raft_type, backup_type, log_type}
use atomix_operator.V1alpha1.DeepCopy.Into.{
  VendoredCopies, deep_copy, copy_elements, raft_partition_group_deep_copy_into,
  log_partition_group_deep_copy_into, cluster_spec_deep_copy_into,
  partition_group_spec_deep_copy_into, atomix_benchmark_spec_deep_copy_into,
}
use atomix_operator.V1alpha1.DeepCopy.Represents.{
  Copies, pure-Copied, then-Copied, kept, plain, plain-Copies,
}
use atomix_operator.V1alpha1.DeepCopy.Pointers.{deep_copy-Copies, elements, copy_elements-Copies}
use atomix_operator.V1alpha1.DeepCopy.Protocols.{
  raft, raft-Copies, log, log-Copies, storage, storage-Copies,
}
use atomix_operator.V1alpha1.DeepCopy.Vendored.{VendoredValues, LawfulCopies}
use atomix_operator.V1alpha1.DeepCopy.Specs.{
  rafts, backups, logs, envs, cluster_spec, group_spec, benchmark_spec,
}

module _ {V : Vendored} {C : VendoredCopies V} {W : VendoredValues V}
    (lawful : LawfulCopies C W) where
  envs-Copies : Copies (envs W) (deep_copy env_type (copy_elements C.env_var_deep_copy_into))
  envs-Copies =
      deep_copy-Copies env_type (elements W.env_var) (copy_elements C.env_var_deep_copy_into)
        (copy_elements-Copies W.env_var C.env_var_deep_copy_into lawful.env_var-Copies)

  pub cluster_spec-Copies : Copies (cluster_spec W) (cluster_spec_deep_copy_into C)
  unfolding cluster_spec_deep_copy_into
  cluster_spec-Copies h lo x w low s =
      let c0 = (envs-Copies) h lo x.env w.env low s.env in
      let c1 =
        (lawful.resource_requirements-Copies) c0.heap lo x.resources w.resources
          (omega (arith, low, c0.grows))
          (kept (W.resource_requirements) c0 x.resources w.resources s.resources) in
      let c2 =
        (storage-Copies) c1.heap lo x.storage w.storage (omega (arith, low, c0.grows, c1.grows)) (
          kept (storage) c1 x.storage w.storage
            (kept (storage) c0 x.storage w.storage s.storage)) in
      then-Copied {RA = envs W} _ c0 (
        then-Copied {RA = W.resource_requirements} _ c1 (
          then-Copied {RA = storage} _ c2 (
            pure-Copied (cluster_spec W) c2.heap lo
              (record x { env = c0.value; resources = c1.value; storage = c2.value }) w
              (record {
                version = s.version;
                size = s.size;
                env = (kept (envs W) c2 c0.value w.env (kept (envs W) c1 c0.value w.env c0.is));
                resources = (kept (W.resource_requirements) c2 c1.value w.resources c1.is);
                storage = c2.is;
              }))))

  pub group_spec-Copies : Copies (group_spec W) (partition_group_spec_deep_copy_into C)
  unfolding partition_group_spec_deep_copy_into
  group_spec-Copies h lo x w low s =
      let c0 = (envs-Copies) h lo x.env w.env low s.env in
      let c1 =
        (lawful.resource_requirements-Copies) c0.heap lo x.resources w.resources
          (omega (arith, low, c0.grows))
          (kept (W.resource_requirements) c0 x.resources w.resources s.resources) in
      let c2 =
        (deep_copy-Copies raft_type raft raft_partition_group_deep_copy_into raft-Copies) c1.heap lo
          x.raft w.raft (omega (arith, low, c0.grows, c1.grows))
          (kept (rafts) c1 x.raft w.raft (kept (rafts) c0 x.raft w.raft s.raft)) in
      let c3 =
        (deep_copy-Copies backup_type (plain PrimaryBackupPartitionGroup) pure plain-Copies) c2.heap
          lo x.primary_backup w.primary_backup (omega (arith, low, c0.grows, c1.grows, c2.grows))
          (kept (backups) c2 x.primary_backup w.primary_backup (
            kept (backups) c1 x.primary_backup w.primary_backup
              (kept (backups) c0 x.primary_backup w.primary_backup s.primary_backup))) in
      let c4 =
        (deep_copy-Copies log_type log log_partition_group_deep_copy_into log-Copies) c3.heap lo
          x.log w.log (omega (arith, low, c0.grows, c1.grows, c2.grows, c3.grows))
          (kept (logs) c3 x.log w.log (
            kept (logs) c2 x.log w.log
              (kept (logs) c1 x.log w.log (kept (logs) c0 x.log w.log s.log)))) in
      then-Copied {RA = envs W} _ c0 (
        then-Copied {RA = W.resource_requirements} _ c1 (
          then-Copied {RA = rafts} _ c2 (
            then-Copied {RA = backups} _ c3 (
              then-Copied {RA = logs} _ c4 (
                pure-Copied (group_spec W) c4.heap lo
                  (record x {
                    env = c0.value;
                    resources = c1.value;
                    raft = c2.value;
                    primary_backup = c3.value;
                    log = c4.value;
                  })
                  w
                  (record {
                    cluster = s.cluster;
                    version = s.version;
                    size = s.size;
                    partitions = s.partitions;
                    env =
                        (kept (envs W) c4 c0.value w.env (
                          kept (envs W) c3 c0.value w.env (
                            kept (envs W) c2 c0.value w.env
                              (kept (envs W) c1 c0.value w.env c0.is))));
                    resources =
                        (kept (W.resource_requirements) c4 c1.value w.resources (
                          kept (W.resource_requirements) c3 c1.value w.resources
                            (kept (W.resource_requirements) c2 c1.value w.resources c1.is)));
                    raft =
                        (kept (rafts) c4 c2.value w.raft (kept (rafts) c3 c2.value w.raft c2.is));
                    primary_backup = (kept (backups) c4 c3.value w.primary_backup c3.is);
                    log = c4.is;
                  }))))))

  pub benchmark_spec-Copies : Copies (benchmark_spec W) (atomix_benchmark_spec_deep_copy_into C)
  unfolding atomix_benchmark_spec_deep_copy_into
  benchmark_spec-Copies h lo x w low s =
      let c0 = (envs-Copies) h lo x.env w.env low s.env in
      let c1 =
        (lawful.resource_requirements-Copies) c0.heap lo x.resources w.resources
          (omega (arith, low, c0.grows))
          (kept (W.resource_requirements) c0 x.resources w.resources s.resources) in
      then-Copied {RA = envs W} _ c0 (
        then-Copied {RA = W.resource_requirements} _ c1 (
          pure-Copied (benchmark_spec W) c1.heap lo
            (record x { env = c0.value; resources = c1.value }) w
            (record {
              cluster = s.cluster;
              version = s.version;
              workers = s.workers;
              env = (kept (envs W) c1 c0.value w.env c0.is);
              resources = c1.is;
            })))
