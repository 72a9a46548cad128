-- ===== src/Tests/Collisions.antt =====
-- The theorem on names that coincide, at the samples.
use atomix_operator.Util.Collisions.{ClustersCollide, GroupCollides, names_collide}
use atomix_operator.Tests.Samples.{three_nodes, unparsed, log_group}

names_collide_example : ClustersCollide three_nodes unparsed × GroupCollides three_nodes log_group
names_collide_example = names_collide three_nodes unparsed log_group
