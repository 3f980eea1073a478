-- ===== src/Tests.antt =====
-- Concrete builds, pipelines and servers, on which the definitions run and the theorems apply.
mod Samples
mod CriTests
mod ContainerTests
mod PipelineTests
mod RunTests
mod KvTests
mod EngineTests
mod HostTests
mod DoctorTests
mod OperationsTests
mod ImageTests
mod LoggerTests
mod ArchiveTests
mod PythonTests
mod DiscoveryTests
mod VolumeTests
mod CacheTests
mod MavenTests
mod ProtobufTests
