-- ===== src/Tests.antt =====
-- Concrete inputs on which the theorems are applied.
mod SampleCodec
mod SamplePlatform
mod SampleHost
mod StorageExamples
mod HostExamples
mod RouteExamples
mod ConsumerExamples
mod ChannelExamples
mod ServerExamples
mod PoolExamples
mod HttpExamples
mod ClientExamples
mod HeartbeatExamples
mod PooledExamples
mod OrderExamples
mod IdExamples
mod DealtExamples
mod StoreExamples
mod RedeclareExamples
mod PassageExamples
